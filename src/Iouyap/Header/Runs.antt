-- ===== src/Iouyap/Header/Runs.antt =====
-- The netio header that a real image sends, and the theorems at concrete inputs.
use iolbox.Common.{ℕ, ◌≡◌, refl, List, [], ◌∷◌, some, arith}
use iolbox.Iouyap.Header.{
  Header, parse_header, build_header, payload, with_payload, encode_port_byte,
}
use iolbox.Iouyap.Header.RoundTrip.{parse_header-with_payload}

-- Ethernet0/1 of instance 1 to the pseudo-instance 501.
abbrev observed : Header
observed = record {
  dst_id = 501;
  src_id = 1;
  dst_port = 0;
  src_port = 16;
  msg_type = 1;
  unused = 0;
}

abbrev observed_bytes : List ℕ
observed_bytes = 0x01 ∷ 0xf5 ∷ 0x00 ∷ 0x01 ∷ 0x00 ∷ 0x10 ∷ 0x01 ∷ 0x00 ∷ 0xaa ∷ []

built : build_header observed ≡ 0x01 ∷ 0xf5 ∷ 0x00 ∷ 0x01 ∷ 0x00 ∷ 0x10 ∷ 0x01 ∷ 0x00 ∷ []
unfolding build_header
built = refl

port_bytes : (encode_port_byte 0 1 ≡ 0x10) × (encode_port_byte 1 0 ≡ 0x01)
unfolding encode_port_byte
port_bytes = (refl, refl)

parse_header-with_payload_example :
    (parse_header (with_payload observed (0xaa ∷ [])) ≡ some observed)
    × (payload (with_payload observed (0xaa ∷ [])) ≡ 0xaa ∷ [])
parse_header-with_payload_example = parse_header-with_payload observed (0xaa ∷ []) (omega arith)

observed_parses : parse_header observed_bytes ≡ some observed
unfolding parse_header
observed_parses = refl
