-- ===== src/Tacacs/Server/Runs.antt =====
-- tacacs.go: the login of a user that the configuration knows, with a constant digest for MD5.
use iolbox.Common.{ℕ, ◌≡◌, ◌↔◌, ◌++◌, refl, true, false, List, [], ◌∷◌, none, some, arith}
use iolbox.Common.Bytes.{zeros}
use iolbox.Common.Ints.{pos}
use iolbox.Common.Texts.{codes, eq_text}
use iolbox.Tacacs.{TacacsHeader, TacacsPacket, is_valid_header}
use iolbox.Tacacs.Fields.{byte_lengths, all_parts}
use iolbox.Tacacs.Pad.{IsDigest}
use iolbox.Tacacs.Authen.{
  TacacsAuthenStart, TacacsAuthenContinue, encode_authen_start, encode_authen_continue,
}
use iolbox.Radius.{Config}
use iolbox.Tacacs.Server.{Log, password_prompt, handle_authen}
use iolbox.Tacacs.Server.Session.{new_session}
use iolbox.Tacacs.Server.Policy.{tacacs_key}
use iolbox.Tacacs.Server.Connection.{handle_conn}
use iolbox.Tacacs.Server.Rounds.{handle_conn_total}
use iolbox.Tacacs.Server.Sequence.{accept_headers, Conversation, accept_headers-Conversation}
use iolbox.Tacacs.Server.Replies.{takes_all, Carries, verdict}
use iolbox.Tacacs.Server.Login.{knows, attempt_of, handle_authen-login}

abbrev constant : List ℕ → List ℕ
constant x = 7 ∷ zeros 15

constant-IsDigest : IsDigest constant
unfolding IsDigest
constant-IsDigest x = (refl, omega arith)

abbrev config : Config
config = record {
  shared_secret = codes "labsecret";
  tacacs_key = codes "key";
  users =
      record {
        username = codes "bob";
        password = codes "x";
        service = [];
        tacacs_service = [];
        priv_lvl = pos 15;
      }
      ∷ [];
}

abbrev header : ℕ → TacacsHeader
header seq = record {
  version = 0xc0;
  type = 1;
  seq_no = seq;
  flags = 0;
  session_id = 5;
  length = 0;
}

abbrev start : TacacsAuthenStart
start = record {
  action = 1;
  priv_lvl = 1;
  authen_type = 1;
  authen_service = 1;
  user = codes "bob";
  port = [];
  remote_addr = [];
  data_part = [];
}

abbrev answer_typed : TacacsAuthenContinue
answer_typed = record { user_msg = codes "x"; data_part = []; flags = 0 }

abbrev first : TacacsPacket
first = record { header = header 1; body = 1 ∷ 1 ∷ 1 ∷ 1 ∷ 3 ∷ 0 ∷ 0 ∷ 0 ∷ b'b' ∷ b'o' ∷ b'b' ∷ [] }

abbrev second : TacacsPacket
second = record { header = header 3; body = 0 ∷ 1 ∷ 0 ∷ 0 ∷ 0 ∷ b'x' ∷ [] }

abbrev empty_log : Log
empty_log = record { sent = []; attempts = [] }

handle_authen-login_example :
    let o1 = handle_authen constant takes_all first config new_session empty_log in
    let o2 = handle_authen constant takes_all second config o1.state o1.log in
    let known = knows config.users start.user answer_typed.user_msg in
    (w1 w2 : List ℕ) × ((o1.final ≡ false) × (o1.error ≡ none))
    × ((o2.final ≡ true) × (o2.error ≡ none))
    × (o2.log.sent ≡ empty_log.sent ++ (w1 ∷ w2 ∷ []))
    × (o2.log.attempts ≡ empty_log.attempts ++ (attempt_of start.user known ∷ []))
    × Carries constant first.header (tacacs_key config) password_prompt w1
    × Carries constant second.header (tacacs_key config) (verdict known) w2
unfolding is_valid_header encode_authen_start encode_authen_continue tacacs_key byte_lengths
    all_parts
handle_authen-login_example =
    handle_authen-login constant constant-IsDigest config new_session empty_log start answer_typed
      first second (refl, omega arith, omega arith) (refl, omega arith, omega arith) refl refl refl
      refl refl refl refl refl

bob_known : knows config.users start.user answer_typed.user_msg ≡ true
bob_known = refl

accept_headers-Conversation_example :
    (accept_headers new_session (header 1 ∷ header 3 ∷ []) ≡ true)
    ↔ Conversation (header 1 ∷ header 3 ∷ [])
accept_headers-Conversation_example = accept_headers-Conversation (header 1 ∷ header 3 ∷ [])

handle_conn_total_example :
    (l : Log) × (handle_conn constant
        (λ s. s)
        (λ s. s)
        eq_text
        (λ e. [])
        takes_all
        (λ round. config)
        (0xc0 ∷ 1 ∷ 1 ∷ 0 ∷ 0 ∷ 0 ∷ 0 ∷ 5 ∷ 0 ∷ 0 ∷ 0 ∷ 1 ∷ 9 ∷ [])
      ≡ some l)
handle_conn_total_example =
    handle_conn_total constant (λ s. s) (λ s. s) eq_text (λ e. []) takes_all (λ round. config)
      (0xc0 ∷ 1 ∷ 1 ∷ 0 ∷ 0 ∷ 0 ∷ 0 ∷ 5 ∷ 0 ∷ 0 ∷ 0 ∷ 1 ∷ 9 ∷ [])
