-- ===== src/Tacacs/Runs.antt =====
-- tacacs_wire.go: packets and bodies. A constant digest stands for MD5 here.
use iolbox.Common.{ℕ, ◌≡◌, refl, true, List, [], ◌∷◌, some, arith}
use iolbox.Common.Bytes.{zeros}
use iolbox.Common.Texts.{codes}
use iolbox.Tacacs.{TacacsHeader, encode_tacacs_packet, decode_tacacs_packet}
use iolbox.Tacacs.Pad.{IsDigest, decode_tacacs_packet-encode}
use iolbox.Tacacs.Fields.{byte_lengths, all_parts}
use iolbox.Tacacs.Authen.{TacacsAuthenStart, encode_authen_start, valid_authen_type}
use iolbox.Tacacs.Requests.{TacacsAuthorRequest, encode_author_request}

abbrev constant_digest : List ℕ → List ℕ
constant_digest x = 7 ∷ zeros 15

constant_digest-IsDigest : IsDigest constant_digest
unfolding IsDigest
constant_digest-IsDigest x = (refl, omega arith)

abbrev start_header : TacacsHeader
start_header = record {
  version = 0xc0;
  type = 1;
  seq_no = 1;
  flags = 4;
  session_id = 0xcafe0001;
  length = 0;
}

abbrev wire : List ℕ
wire = 0xc0 ∷ 1 ∷ 1 ∷ 4 ∷ 0xca ∷ 0xfe ∷ 0 ∷ 1 ∷ 0 ∷ 0 ∷ 0 ∷ 3 ∷ 6 ∷ 2 ∷ 3 ∷ []

wire_written :
    encode_tacacs_packet constant_digest start_header (1 ∷ 2 ∷ 3 ∷ []) (codes "key") ≡ some wire
unfolding encode_tacacs_packet
wire_written = refl

decode_tacacs_packet-encode_example :
    decode_tacacs_packet constant_digest wire (codes "key")
    ≡ (record { header = record start_header { length = 3 }; body = 1 ∷ 2 ∷ 3 ∷ [] }, true)
decode_tacacs_packet-encode_example =
    decode_tacacs_packet-encode constant_digest constant_digest-IsDigest start_header
      (1 ∷ 2 ∷ 3 ∷ []) (codes "key") wire (omega arith) refl (omega arith) (λ h. cc h) wire_written

abbrev login : TacacsAuthenStart
login = record {
  action = 1;
  priv_lvl = 1;
  authen_type = 1;
  authen_service = 1;
  user = codes "bob";
  port = codes "tty0";
  remote_addr = [];
  data_part = [];
}

abbrev login_body : List ℕ
login_body = 1 ∷ 1 ∷ 1 ∷ 1 ∷ 3 ∷ 4 ∷ 0 ∷ 0 ∷ b'b' ∷ b'o' ∷ b'b' ∷ b't' ∷ b't' ∷ b'y' ∷ b'0' ∷ []

login_written : encode_authen_start login ≡ some login_body
unfolding encode_authen_start byte_lengths all_parts
login_written = refl

abbrev show_command : TacacsAuthorRequest
show_command = record {
  authen_method = 6;
  priv_lvl = 1;
  authen_type = 1;
  authen_service = 1;
  user = codes "bob";
  port = [];
  remote_addr = [];
  args = codes "cmd=show" ∷ codes "x*y" ∷ [];
}

abbrev show_body : List ℕ
show_body =
    6 ∷ 1 ∷ 1 ∷ 1 ∷ 3 ∷ 0 ∷ 0 ∷ 2 ∷ 8 ∷ 3 ∷ b'b' ∷ b'o' ∷ b'b' ∷ b'c' ∷ b'm' ∷ b'd' ∷ b'=' ∷ b's'
    ∷ b'h' ∷ b'o' ∷ b'w' ∷ b'x' ∷ b'*' ∷ b'y' ∷ []

show_written : encode_author_request show_command ≡ some show_body
unfolding encode_author_request byte_lengths all_parts valid_authen_type
show_written = refl
