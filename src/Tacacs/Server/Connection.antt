-- ===== src/Tacacs/Server/Connection.antt =====
-- tacacs.go: authorization, accounting, and the loop over a connection's packets.
use iolbox.Common.{
  ℕ, zero, suc, ◌+◌, Bool, true, false, not, ◌||◌, ◌==◌, ltb, if◌then◌else◌, List, [], ◌∷◌, ◌++◌,
  length, take, drop, Option, none, some,
}
use iolbox.Common.Texts.{Text, codes}
use iolbox.Tacacs.{
  TacacsHeader, TacacsPacket, decode_tacacs_header, decode_tacacs_packet,
  validate_tacacs_request_version, is_empty,
}
use iolbox.Tacacs.Authen.{encode_authen_reply}
use iolbox.Tacacs.Requests.{
  TacacsAuthorRequest, TacacsAuthorReply, TacacsAcctRequest, TacacsAcctReply, encode_author_reply,
  encode_acct_reply, decode_author_request, decode_acct_request, valid_acct_flags,
}
use iolbox.Radius.{User, Config}
use iolbox.Tacacs.Server.{
  Failure, bad_header, bad_packet, bad_author, bad_acct, minor_version, unsupported_type, failed,
  protocol_error, refusing_request, unknown_user, unknown_service, other_service, author_pass_add,
  invalid_flags, acct, Log, Outcome, add_attempt, outcome, authen_reply, write_reply_with_key,
  write_author, write_acct, handle_authen,
}
use iolbox.Tacacs.Server.Session.{
  TacacsSession, new_session, Accepted, accepted, refused, accept_header,
}
use iolbox.Tacacs.Server.Policy.{
  tacacs_key, find_user_by_name, signed_decimal, tacacs_service, author_service,
  known_tacacs_service, acct_flag_names,
}

abbrev author_reply : ℕ → Text → List Text → TacacsAuthorReply
author_reply status message args = record {
  status = status;
  server_msg = message;
  data_part = [];
  args = args;
}

abbrev acct_reply : ℕ → TacacsAcctReply
acct_reply status = record { status = status; server_msg = []; data_part = [] }

-- Go on with a session, or return.
pub data Step : Type 0 where
  next : TacacsSession → Log → Step
  closed : Log → Step

abbrev pub continue_step : Step → (TacacsSession → Log → Option Log) → Option Log
continue_step (closed log) more = some log
continue_step (next state log) more = more state log

-- The conversions of a key, the text of each error, the stores and the connection.
module _ (md5 : List ℕ → List ℕ) (fold trim : Text → Text) (equal_fold : Text → Text → Bool)
    (error_text : Failure → Text) (takes : List (List ℕ) → List ℕ → Bool) where
  abbrev authorize :
      Option Text → User → Text → TacacsHeader → Config → TacacsSession → Log → Outcome
  authorize none user name request cfg state log = outcome true state (
      write_author md5 takes request cfg (author_reply 0x01 [] [])
        (add_attempt name true unknown_service log))
  authorize (some service) user name request cfg state log =
      let argument = codes "priv-lvl=" ++ signed_decimal user.priv_lvl in
      if not (known_tacacs_service fold trim equal_fold service)
      then outcome true state (
          write_author md5 takes request cfg (author_reply 0x01 [] [])
            (add_attempt name true unknown_service log))
      else if not (equal_fold service (tacacs_service fold trim equal_fold user))
      then outcome true state (
          write_author md5 takes request cfg (author_reply 0x10 (codes "Authorization failed") [])
            (add_attempt name false other_service log))
      else outcome true state (
          write_author md5 takes request cfg (author_reply 0x01 [] (argument ∷ []))
            (add_attempt name true (author_pass_add argument) log))

  abbrev author_of :
      Option User → TacacsAuthorRequest → TacacsHeader → Config → TacacsSession → Log → Outcome
  author_of none q request cfg state log = outcome true state (
      write_author md5 takes request cfg (author_reply 0x10 (codes "Authorization failed") [])
        (add_attempt q.user false unknown_user log))
  author_of (some user) q request cfg state log =
      authorize (author_service fold trim equal_fold q.args) user q.user request cfg state log

  abbrev authored :
      Option TacacsAuthorRequest → TacacsPacket → Config → TacacsSession → Log → Outcome
  authored none packet cfg state log = outcome true state (log, some (bad_author packet.body))
  authored (some q) packet cfg state log =
      author_of (find_user_by_name cfg.users q.user) q packet.header cfg
        (record state { username = q.user }) log

  pub handle_author : TacacsPacket → Config → TacacsSession → Log → Outcome
  handle_author packet cfg state log =
      authored (decode_author_request packet.body) packet cfg state log

  abbrev accounted :
      Option TacacsAcctRequest → TacacsPacket → Config → TacacsSession → Log → Outcome
  accounted none packet cfg state log = outcome true state (log, some (bad_acct packet.body))
  accounted (some q) packet cfg state log =
      let state1 = record state { username = q.user } in
      let shown = if q.flags == 0x08 then [] else q.args in
      if not (valid_acct_flags q.flags)
      then outcome true state1 (
          write_acct md5 takes packet.header cfg (acct_reply 0x02)
            (add_attempt q.user false (invalid_flags q.flags) log))
      else outcome true state1 (
          write_acct md5 takes packet.header cfg (acct_reply 0x01)
            (add_attempt q.user true (acct (acct_flag_names q.flags) shown) log))

  pub handle_acct : TacacsPacket → Config → TacacsSession → Log → Outcome
  handle_acct packet cfg state log =
      accounted (decode_acct_request packet.body) packet cfg state log

  pub handle_packet : TacacsPacket → Config → TacacsSession → Log → Outcome
  unfolding handle_author handle_acct
  handle_packet packet cfg state log =
      if packet.header.type == 0x01
      then handle_authen md5 takes packet cfg state log
      else if packet.header.type == 0x02
      then handle_author packet cfg state log
      else if packet.header.type == 0x03
      then handle_acct packet cfg state log
      else outcome true state (log, some unsupported_type)

  -- The body by the type of the request; another type gets an empty one.
  abbrev error_body : TacacsHeader → Failure → Option (List ℕ)
  error_body request cause =
      if request.type == 0x01
      then encode_authen_reply
          (authen_reply 0x07 0 (codes "TACACS+ request rejected: " ++ error_text cause))
      else if request.type == 0x02
      then encode_author_reply (author_reply 0x11 (codes "TACACS+ request rejected") [])
      else if request.type == 0x03
      then encode_acct_reply (acct_reply 0x02)
      else some []

  abbrev write_error_body : TacacsHeader → List ℕ → Option (List ℕ) → Log → Log
  write_error_body request key none log = log
  write_error_body request key (some body) log =
      let (log1, error) = write_reply_with_key md5 takes request key body log in log1

  -- Its own error is ignored.
  pub write_error : TacacsHeader → List ℕ → Failure → Log → Log
  write_error request key cause log = write_error_body request key (error_body request cause) log

  abbrev after : TacacsHeader → List ℕ → Option Failure → Bool → TacacsSession → Log → Step
  after header key (some e) final state log =
      closed (write_error header key e (add_attempt state.username false (failed e) log))
  after header key none true state log = closed log
  after header key none false state log = next state log

  abbrev after_outcome : TacacsHeader → List ℕ → Outcome → Step
  after_outcome header key o = after header key o.error o.final o.state o.log

  -- Behind acceptHeader, with the key configured; the packet and whether it decodes.
  abbrev decoded :
      List ℕ → TacacsHeader → List ℕ → Config → TacacsPacket × Bool → TacacsSession → Log → Step
  decoded packet_bytes header key cfg (packet, false) state log = closed (
      write_error header key (bad_packet packet_bytes key)
        (add_attempt [] false (failed (bad_packet packet_bytes key)) log))
  decoded packet_bytes header key cfg (packet, true) state log =
      if not (validate_tacacs_request_version packet)
      then closed
          (write_error header key minor_version (add_attempt [] false (failed minor_version) log))
      else after_outcome header key (handle_packet packet cfg state log)

  abbrev proceed : List ℕ → TacacsHeader → Config → Accepted → Log → Step
  proceed packet_bytes header cfg (refused e) log = closed (
      write_error header (tacacs_key cfg) (bad_header e)
        (add_attempt [] false (protocol_error (bad_header e)) log))
  proceed packet_bytes header cfg (accepted state) log =
      let key = tacacs_key cfg in
      if is_empty key
      then closed (add_attempt [] false refusing_request log)
      else decoded packet_bytes header key cfg (decode_tacacs_packet md5 packet_bytes key) state log

  -- One round, once the packet is read.
  pub handle_bytes : List ℕ → TacacsHeader → Config → TacacsSession → Log → Step
  unfolding write_error handle_packet
  handle_bytes packet_bytes header cfg state log =
      proceed packet_bytes header cfg (accept_header state header) log

  -- The rounds of handleConn, over what the client sends until it is done, or a read fails. `snapshot` is
  -- the configuration in each round. `none` is out of fuel: a round takes 12 bytes at least.
  unfoldable pub handle_rounds : (ℕ → Config) → ℕ → ℕ → List ℕ → TacacsSession → Log → Option Log
  handle_rounds snapshot round zero input state log = none
  handle_rounds snapshot round (suc fuel) input state log =
      let (header, valid) = decode_tacacs_header (take 12 input) in
      let size = 12 + header.length in
      let more = handle_rounds snapshot (suc round) fuel (drop size input) in
      if ltb (length input) 12 || not valid || ltb (length input) size
      then some log
      else continue_step (handle_bytes (take size input) header (snapshot round) state log) more

  unfoldable pub handle_conn : (ℕ → Config) → List ℕ → Option Log
  unfolding handle_rounds
  handle_conn snapshot input =
      handle_rounds snapshot 0 (suc (length input)) input new_session
        (record { sent = []; attempts = [] })
