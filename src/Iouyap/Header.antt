-- ===== src/Iouyap/Header.antt =====
-- supervisor/internal/iouyap/header.go: the 8-byte netio header in front of an ethernet frame.
mod RoundTrip
mod Runs
use iolbox.Common.{
  ℕ, ◌+◌, ◌*◌, ◌%◌, ltb, if◌then◌else◌, List, [], ◌∷◌, Option, some, none, length, drop,
}
use iolbox.Common.Bytes.{be16, put_be16, copy_at, zeros}

abbrev pub header_size : ℕ
header_size = 8

pub record Header : Type 0 where
  pub dst_id : ℕ  -- uint16
  pub src_id : ℕ  -- uint16
  pub dst_port : ℕ  -- uint8
  pub src_port : ℕ  -- uint8
  pub msg_type : ℕ  -- uint8
  pub unused : ℕ  -- uint8

-- `uint8(port<<4 | adapter&0x0f)`
pub encode_port_byte : ℕ → ℕ → ℕ
encode_port_byte adapter port = (port * 16 + adapter % 16) % 256

-- The eight bytes at the front, once the length is checked.
header_of : List ℕ → Option Header
header_of (d0 ∷ d1 ∷ s0 ∷ s1 ∷ dp ∷ sp ∷ mt ∷ un ∷ rest) = some (record {
  dst_id = be16 d0 d1;
  src_id = be16 s0 s1;
  dst_port = dp;
  src_port = sp;
  msg_type = mt;
  unused = un;
})
header_of _ = none

pub parse_header : List ℕ → Option Header
unfolding header_of
parse_header datagram = if ltb (length datagram) header_size then none else header_of datagram

pub build_header : Header → List ℕ
build_header h =
    let b1 = put_be16 (zeros header_size) 0 h.dst_id in
    let b2 = put_be16 b1 2 h.src_id in
    let b3 = copy_at b2 4 (h.dst_port ∷ []) in
    let b4 = copy_at b3 5 (h.src_port ∷ []) in
    let b5 = copy_at b4 6 (h.msg_type ∷ []) in copy_at b5 7 (h.unused ∷ [])

-- An empty list stands for nil.
pub payload : List ℕ → List ℕ
payload datagram = if ltb (length datagram) header_size then [] else drop header_size datagram

pub with_payload : Header → List ℕ → List ℕ
unfolding build_header
with_payload h p =
    copy_at (copy_at (zeros (header_size + length p)) 0 (build_header h)) header_size p
