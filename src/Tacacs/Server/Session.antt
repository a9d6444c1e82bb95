-- ===== src/Tacacs/Server/Session.antt =====
-- tacacs.go: what a connection remembers, and the sequence numbers that it accepts.
use iolbox.Common.{ℕ, ◌+◌, ◌%◌, Bool, true, false, not, ◌||◌, ◌==◌, leb, if◌then◌else◌, []}
use iolbox.Common.Texts.{Text}
use iolbox.Tacacs.{TacacsHeader}

-- The reasons for which acceptHeader refuses a header.
pub data HeaderError : Type 0 where
  even_sequence session_changed version_changed : HeaderError
  not_first : ℕ → HeaderError
  out_of_order : ℕ → ℕ → HeaderError

pub data AuthenStage : Type 0 where
  stage_start need_username need_password : AuthenStage

abbrev pub is_start : AuthenStage → Bool
is_start stage_start = true
is_start _ = false

abbrev pub is_username : AuthenStage → Bool
is_username need_username = true
is_username _ = false

pub record TacacsSession : Type 0 where
  pub initialized : Bool
  pub session_id : ℕ
  pub version : ℕ
  pub last_seq : ℕ
  pub stage : AuthenStage
  pub username : Text

abbrev pub new_session : TacacsSession
new_session = record {
  initialized = false;
  session_id = 0;
  version = 0;
  last_seq = 0;
  stage = stage_start;
  username = [];
}

pub data Accepted : Type 0 where
  accepted : TacacsSession → Accepted
  refused : HeaderError → Accepted

unfoldable pub accept_header : TacacsSession → TacacsHeader → Accepted
accept_header state header =
    if header.seq_no % 2 == 0
    then refused even_sequence
    else if not state.initialized
    then (if not (header.seq_no == 1)
        then refused (not_first header.seq_no)
        else accepted (record state {
          initialized = true;
          session_id = header.session_id;
          version = header.version;
          last_seq = header.seq_no;
        }))
    else if not (header.session_id == state.session_id)
    then refused session_changed
    else if not (header.version == state.version)
    then refused version_changed
    else if leb 253 state.last_seq || not (header.seq_no == (state.last_seq + 2) % 256)
    then refused (out_of_order header.seq_no state.last_seq)
    else accepted (record state { last_seq = header.seq_no })
