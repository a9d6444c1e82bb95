-- ===== src/Tacacs.antt =====
-- runtime/files/tools/packs/aaa/gui/tacacs_wire.go: the TACACS+ header and packet (RFC 8907). A string
-- is its bytes. `none`, or `false` beside a value, is the error. MD5 is a parameter.
pub mod Pad
pub mod Fields
pub mod Authen
pub mod Requests
pub mod Server
mod Runs
use Prim.Native.Nat.{bit_and, bit_xor}
use iolbox.Common.{
  ℕ, zero, suc, ◌+◌, ◌-◌, ◌/◌, ◌%◌, Bool, true, false, not, ◌&&◌, ◌||◌, ◌==◌, ltb, if◌then◌else◌,
  List, [], ◌∷◌, ◌++◌, length, take, drop, Option, none, some, ◌>>=◌,
}
use iolbox.Common.Bytes.{be32, bytes32}

abbrev pub tacacs_version_major : ℕ
tacacs_version_major = 0xc

abbrev pub tacacs_type_authen : ℕ
tacacs_type_authen = 0x01

abbrev pub tacacs_type_acct : ℕ
tacacs_type_acct = 0x03

abbrev pub tacacs_flag_unencrypted : ℕ
tacacs_flag_unencrypted = 0x01

abbrev pub tacacs_flag_single_connect : ℕ
tacacs_flag_single_connect = 0x04

-- `^byte(tacacsFlagUnencrypted|tacacsFlagSingleConnect)`
abbrev pub other_flags : ℕ
other_flags = 255 - (tacacs_flag_unencrypted + tacacs_flag_single_connect)

abbrev pub max_body : ℕ
max_body = 65535

pub record TacacsHeader : Type 0 where
  pub version : ℕ
  pub type : ℕ
  pub seq_no : ℕ
  pub flags : ℕ
  pub session_id : ℕ
  pub length : ℕ

abbrev pub empty_header : TacacsHeader
empty_header = record { version = 0; type = 0; seq_no = 0; flags = 0; session_id = 0; length = 0 }

pub record TacacsPacket : Type 0 where
  pub header : TacacsHeader
  pub body : List ℕ

-- The tests that both directions make, in the same order.
unfoldable pub is_valid_header : TacacsHeader → Bool
is_valid_header h =
    if not (h.version / 16 == tacacs_version_major) || ltb 1 (h.version % 16)
    then false
    else if ltb h.type tacacs_type_authen || ltb tacacs_type_acct h.type
    then false
    else if h.seq_no == 0 || h.seq_no == 255
    then false
    else if not (bit_and h.flags other_flags == 0)
    then false
    else not (ltb max_body h.length)

header_bytes : TacacsHeader → List ℕ
header_bytes h =
    h.version ∷ h.type ∷ h.seq_no ∷ h.flags ∷ (bytes32 h.session_id ++ bytes32 h.length)

pub encode_tacacs_header : TacacsHeader → Option (List ℕ)
unfolding is_valid_header header_bytes
encode_tacacs_header h = if is_valid_header h then some (header_bytes h) else none

pub header_of : List ℕ → TacacsHeader
header_of (v ∷ t ∷ s ∷ f ∷ a ∷ b ∷ c ∷ d ∷ e ∷ g ∷ h ∷ i ∷ rest) = record {
  version = v;
  type = t;
  seq_no = s;
  flags = f;
  session_id = be32 a b c d;
  length = be32 e g h i;
}
header_of _ = empty_header

pub decode_tacacs_header : List ℕ → TacacsHeader × Bool
unfolding header_of is_valid_header
decode_tacacs_header packet_bytes =
    if ltb (length packet_bytes) 12
    then (empty_header, false)
    else let h = header_of packet_bytes in (h, is_valid_header h)

-- `body[i] = text[i] ^ pad[i]`
unfoldable pub xor_with : List ℕ → List ℕ → List ℕ
xor_with (t ∷ text) (p ∷ pad) = bit_xor t p ∷ xor_with text pad
xor_with _ _ = []

abbrev pub is_empty : List ℕ → Bool
is_empty [] = true
is_empty (x ∷ xs) = false

module _ (md5 : List ℕ → List ℕ) where
  -- The loop: no digest before the first one. Fuel `length` is enough, since a digest has 16 bytes.
  pub pad_loop : ℕ → List ℕ → List ℕ → List ℕ → ℕ → List ℕ
  pad_loop zero seed previous pad n = pad
  pad_loop (suc fuel) seed previous pad n =
      let digest = md5 (seed ++ previous) in
      let rest = pad_loop fuel seed digest (pad ++ digest) n in
      if ltb (length pad) n then rest else pad

  pub tacacs_pad : ℕ → List ℕ → ℕ → ℕ → ℕ → List ℕ
  unfolding pad_loop
  tacacs_pad session_id key version seq_no n =
      let seed = bytes32 session_id ++ (key ++ (version ∷ seq_no ∷ [])) in
      take n (pad_loop n seed [] [] n)

  pub encode_tacacs_packet : TacacsHeader → List ℕ → List ℕ → Option (List ℕ)
  unfolding encode_tacacs_header tacacs_pad xor_with
  encode_tacacs_packet h plaintext key = if ltb max_body (length plaintext) then none else do
    header ← encode_tacacs_header (record h { length = length plaintext })
    some (
        header
        ++ xor_with plaintext (tacacs_pad h.session_id key h.version h.seq_no (length plaintext)))

  -- The packet as far as it is read, and whether there was no error.
  pub decode_body : TacacsHeader → List ℕ → List ℕ → TacacsPacket × Bool
  unfolding tacacs_pad xor_with
  decode_body h packet_bytes key =
      let refused : TacacsPacket × Bool = (record { header = h; body = [] }, false) in
      if not (length packet_bytes == 12 + h.length)
      then refused
      else if not (bit_and h.flags tacacs_flag_unencrypted == 0)
      then refused
      else if is_empty key
      then refused
      else (
        record {
          header = h;
          body =
              xor_with (drop 12 packet_bytes)
                (tacacs_pad h.session_id key h.version h.seq_no h.length);
        },
        true,
      )

  pub decode_tacacs_packet : List ℕ → List ℕ → TacacsPacket × Bool
  unfolding decode_tacacs_header decode_body
  decode_tacacs_packet packet_bytes key =
      let (h, valid) = decode_tacacs_header packet_bytes in
      if valid then decode_body h packet_bytes key else (record { header = h; body = [] }, false)

-- An error for every request of minor version 1.
pub validate_tacacs_request_version : TacacsPacket → Bool
validate_tacacs_request_version packet = packet.header.version % 16 == 0
