-- ===== src/Tacacs/Server.antt =====
-- runtime/files/tools/packs/aaa/gui/tacacs.go: one connection of the lab's TACACS+ server. The client
-- is the list of bytes that it sends; a parameter says which writes the connection takes whole, by what
-- went before. The text of an error is a parameter, of the data that the error is about.
pub mod Session
pub mod Policy
pub mod Connection
pub mod Rounds
pub mod Sequence
pub mod Replies
pub mod Login
mod Runs
use Prim.Native.Nat.{bit_and}
use iolbox.Common.{
  ℕ, zero, suc, ◌+◌, ◌-◌, Bool, true, false, not, ◌&&◌, ◌||◌, ◌==◌, ltb, leb, if◌then◌else◌, List,
  [], ◌∷◌, ◌++◌, length, take, drop, Option, none, some,
}
use iolbox.Common.Texts.{Text, codes, eq_text}
use iolbox.Tacacs.{
  TacacsHeader, TacacsPacket, decode_tacacs_header, decode_tacacs_packet, encode_tacacs_packet,
  validate_tacacs_request_version, is_empty,
}
use iolbox.Tacacs.Authen.{
  TacacsAuthenStart, TacacsAuthenReply, TacacsAuthenContinue, encode_authen_reply,
  decode_authen_start, decode_authen_continue, tacacs_acct_abort, tacacs_authen_get_pass,
  tacacs_authen_no_echo,
}
use iolbox.Tacacs.Requests.{
  TacacsAuthorRequest, TacacsAuthorReply, TacacsAcctRequest, TacacsAcctReply, encode_author_reply,
  encode_acct_reply, decode_author_request, decode_acct_request, valid_acct_flags,
}
use iolbox.Radius.{User, Config}
use iolbox.Tacacs.Server.Session.{
  HeaderError, AuthenStage, is_start, is_username, need_username, need_password, TacacsSession,
  new_session,
}
use iolbox.Tacacs.Server.Policy.{
  tacacs_key, find_user, find_user_by_name, signed_decimal, tacacs_service, author_service,
  known_tacacs_service, acct_flag_names,
}

-- Why a request fails, with what the text of the error depends on.
pub data Failure : Type 0 where
  bad_header : HeaderError → Failure
  bad_packet : List ℕ → List ℕ → Failure
  bad_start bad_continue bad_author bad_acct : List ℕ → Failure
  bad_authen_reply : TacacsAuthenReply → Failure
  bad_author_reply : TacacsAuthorReply → Failure
  bad_acct_reply : TacacsAcctReply → Failure
  minor_version unsupported_type no_key sequence_wraps write_failed : Failure
  bad_reply : TacacsHeader → List ℕ → Failure

pub data Message : Type 0 where
  failed protocol_error : Failure → Message
  refusing_request only_login invalid_credentials authentication_successful : Message
  only_ascii : ℕ → Message
  aborted : Text → Message
  unknown_user unknown_service other_service : Message
  author_pass_add : Text → Message
  invalid_flags : ℕ → Message
  acct : List Text → List Text → Message

pub record Attempt : Type 0 where
  pub user : Text
  pub accepted : Bool
  pub message : Message

-- The packets that the connection took, and what record added to the ring, oldest first.
pub record Log : Type 0 where
  pub sent : List (List ℕ)
  pub attempts : List Attempt

pub record Outcome : Type 0 where
  pub final : Bool
  pub error : Option Failure
  pub state : TacacsSession
  pub log : Log

pub add_attempt : Text → Bool → Message → Log → Log
add_attempt user ok message log = record log {
  attempts = log.attempts ++ (record { user = user; accepted = ok; message = message } ∷ []);
}

module _ (md5 : List ℕ → List ℕ) (takes : List (List ℕ) → List ℕ → Bool) where
  abbrev send : Failure → Log → Option (List ℕ) → Log × Option Failure
  send e log none = (log, some e)
  send e log (some encoded) =
      if takes log.sent encoded
      then (record log { sent = log.sent ++ (encoded ∷ []) }, none)
      else (log, some write_failed)

  pub write_reply_with_key : TacacsHeader → List ℕ → List ℕ → Log → Log × Option Failure
  write_reply_with_key request key body log =
      let header = record request { seq_no = request.seq_no + 1; flags = 0 } in
      let done = send (bad_reply header body) log (encode_tacacs_packet md5 header body key) in
      if leb 254 request.seq_no then (log, some sequence_wraps) else done

  pub write_reply : TacacsHeader → Config → List ℕ → Log → Log × Option Failure
  unfolding write_reply_with_key
  write_reply request cfg body log =
      if is_empty (tacacs_key cfg)
      then (log, some no_key)
      else write_reply_with_key request (tacacs_key cfg) body log

  -- A body that cannot be encoded is an error.
  abbrev write_body : Failure → TacacsHeader → Config → Option (List ℕ) → Log → Log × Option Failure
  write_body e request cfg none log = (log, some e)
  write_body e request cfg (some body) log = write_reply request cfg body log

  pub write_authen : TacacsHeader → Config → TacacsAuthenReply → Log → Log × Option Failure
  unfolding write_reply
  write_authen request cfg reply log =
      write_body (bad_authen_reply reply) request cfg (encode_authen_reply reply) log

  pub write_author : TacacsHeader → Config → TacacsAuthorReply → Log → Log × Option Failure
  unfolding write_reply
  write_author request cfg reply log =
      write_body (bad_author_reply reply) request cfg (encode_author_reply reply) log

  pub write_acct : TacacsHeader → Config → TacacsAcctReply → Log → Log × Option Failure
  unfolding write_reply
  write_acct request cfg reply log =
      write_body (bad_acct_reply reply) request cfg (encode_acct_reply reply) log

abbrev pub outcome : Bool → TacacsSession → Log × Option Failure → Outcome
outcome final state (log, error) = record { final = final; error = error; state = state; log = log }

abbrev pub authen_reply : ℕ → ℕ → Text → TacacsAuthenReply
authen_reply status flags message = record {
  status = status;
  flags = flags;
  server_msg = message;
  data_part = [];
}

abbrev pub password_prompt : TacacsAuthenReply
password_prompt = authen_reply tacacs_authen_get_pass tacacs_authen_no_echo (codes "Password: ")

-- The handlers of one connection, by the text of each error.
module _ (md5 : List ℕ → List ℕ) (takes : List (List ℕ) → List ℕ → Bool) where
  -- The first packet of an authentication, decoded.
  pub handle_start : TacacsAuthenStart → TacacsHeader → Config → TacacsSession → Log → Outcome
  unfolding write_authen
  handle_start start request cfg state log =
      let state1 = record state { username = start.user } in
      if not (start.authen_type == 0x01)
      then outcome true state1 (
          write_authen md5 takes request cfg
            (authen_reply 0x02 0 (codes "only ASCII login is supported"))
            (add_attempt start.user false (only_ascii start.authen_type) log))
      else if not (start.action == 0x01)
      then outcome true state1 (
          write_authen md5 takes request cfg
            (authen_reply 0x02 0 (codes "only ASCII LOGIN is supported"))
            (add_attempt start.user false only_login log))
      else if is_empty start.user
      then outcome false (record state1 { stage = need_username })
          (write_authen md5 takes request cfg (authen_reply 0x04 0 (codes "Username: ")) log)
      else outcome false (record state1 { stage = need_password })
          (write_authen md5 takes request cfg password_prompt log)

  abbrev pub decide : Option User → TacacsHeader → Config → TacacsSession → Log → Outcome
  decide none request cfg state log = outcome true state (
      write_authen md5 takes request cfg (authen_reply 0x02 0 (codes "Authentication failed"))
        (add_attempt state.username false invalid_credentials log))
  decide (some user) request cfg state log = outcome true state (
      write_authen md5 takes request cfg (authen_reply 0x01 0 (codes "Authentication successful"))
        (add_attempt state.username true authentication_successful log))

  -- At stage_start there is no continuation.
  abbrev pub answer : TacacsAuthenContinue → TacacsHeader → Config → TacacsSession → Log → Outcome
  answer c request cfg state log =
      if is_username state.stage
      then outcome false (record state { username = c.user_msg; stage = need_password })
          (write_authen md5 takes request cfg password_prompt log)
      else decide (find_user cfg.users state.username c.user_msg) request cfg state log

  -- A later packet of an authentication, decoded.
  pub handle_continue : TacacsAuthenContinue → TacacsHeader → Config → TacacsSession → Log → Outcome
  unfolding write_authen
  handle_continue c request cfg state log =
      if not (bit_and c.flags tacacs_acct_abort == 0)
      then outcome true state (add_attempt state.username false (aborted c.data_part) log, none)
      else answer c request cfg state log

  abbrev started : Option TacacsAuthenStart → TacacsPacket → Config → TacacsSession → Log → Outcome
  started none packet cfg state log = outcome true state (log, some (bad_start packet.body))
  started (some start) packet cfg state log = handle_start start packet.header cfg state log

  abbrev continued :
      Option TacacsAuthenContinue → TacacsPacket → Config → TacacsSession → Log → Outcome
  continued none packet cfg state log = outcome true state (log, some (bad_continue packet.body))
  continued (some c) packet cfg state log = handle_continue c packet.header cfg state log

  pub handle_authen : TacacsPacket → Config → TacacsSession → Log → Outcome
  unfolding handle_start handle_continue
  handle_authen packet cfg state log =
      if is_start state.stage
      then started (decode_authen_start packet.body) packet cfg state log
      else continued (decode_authen_continue packet.body) packet cfg state log
