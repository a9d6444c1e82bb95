-- ===== src/Iouyap/Header/RoundTrip.antt =====
-- header.go: what is built is parsed back, and the two encodings of an interface.
use iolbox.Common.{ℕ, ◌/◌, ◌%◌, ◌<◌, ◌≡◌, ap, List, ◌∷◌, ◌++◌, some, length, All, arith}
use iolbox.Common.Bytes.{replicate-add, copy_at-zeros, copy_at-nil, IsByte}
use iolbox.Iouyap.Header.{
  Header, parse_header, build_header, payload, with_payload, encode_port_byte,
}

-- The fields as Go's types bound them.
pub record IsHeader (h : Header) : Type 0 where
  pub dst_id : h.dst_id < 65536
  pub src_id : h.src_id < 65536
  pub dst_port : h.dst_port < 256
  pub src_port : h.src_port < 256
  pub msg_type : h.msg_type < 256
  pub unused : h.unused < 256

with_payload-append : (h : Header) (p : List ℕ) → with_payload h p ≡ build_header h ++ p
unfolding with_payload
with_payload-append h p =
    rw (replicate-add {A = ℕ} 8 (length p) 0, copy_at-nil)
      (ap (λ (l : List ℕ). build_header h ++ l) (copy_at-zeros p))

-- A datagram built from a header and a frame parses to that header, and its payload is the frame.
pub parse_header-with_payload :
    (h : Header) (p : List ℕ)
    → IsHeader h
    → (parse_header (with_payload h p) ≡ some h) × (payload (with_payload h p) ≡ p)
parse_header-with_payload h p v =
    rw (with_payload-append h p)
      (unfold build_header parse_header payload in (ground (arith, v), ground arith))

-- A datagram of bytes that parses is the one built from its header and payload.
pub with_payload-parse_header :
    (d : List ℕ) (h : Header)
    → All IsByte d
    → parse_header d ≡ some h
    → with_payload h (payload d) ≡ d
unfolding parse_header payload build_header
with_payload-parse_header (d0 ∷ d1 ∷ s0 ∷ s1 ∷ dp ∷ sp ∷ mt ∷ un ∷ rest) h b e =
    rw (with_payload-append h (payload (d0 ∷ d1 ∷ s0 ∷ s1 ∷ dp ∷ sp ∷ mt ∷ un ∷ rest)))
      (ground arith)
with_payload-parse_header _ h b e = ground arith

-- For an adapter and a port of the 16 that each nibble holds, the port byte has the port in its high
-- nibble and the adapter in its low one.
pub encode_port_byte_nibbles :
    (adapter port : ℕ)
    → adapter < 16
    → port < 16
    → (encode_port_byte adapter port / 16 ≡ port)
      × (encode_port_byte adapter port % 16 ≡ adapter)
      × (encode_port_byte adapter port < 256)
unfolding encode_port_byte
encode_port_byte_nibbles adapter port h k = omega arith
