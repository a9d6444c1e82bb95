-- ===== src/Relay/Pcapng.antt =====
-- supervisor/internal/relay/pcapng.go: the writer of a pcapng stream. The io.Writer is a parameter:
-- `write w b` is the writer after `b` and whether it took it. Each block is made as the source makes
-- it, a zeroed buffer of its total length with the fields put at their offsets.
pub mod Blocks
pub mod Stream
mod Runs
use iolbox.Common.{
  ℕ, ◌+◌, ◌-◌, ◌/◌, ◌%◌, ◌^◌, Bool, true, false, if◌then◌else◌, List, [], ◌∷◌, length,
}
use iolbox.Common.Bytes.{zeros, copy_at}

abbrev pub bytes_le32 : ℕ → List ℕ
bytes_le32 v = (v % 256) ∷ (v / 256 % 256) ∷ (v / 65536 % 256) ∷ (v / 16777216 % 256) ∷ []

abbrev pub put_le16 : List ℕ → ℕ → ℕ → List ℕ
put_le16 buf off v = copy_at buf off ((v % 256) ∷ (v / 256 % 256) ∷ [])

abbrev pub put_le32 : List ℕ → ℕ → ℕ → List ℕ
put_le32 buf off v = copy_at buf off (bytes_le32 v)

abbrev pub put_le64 : List ℕ → ℕ → ℕ → List ℕ
put_le64 buf off v = put_le32 (put_le32 buf off v) (off + 4) (v / 2 ^ 32)

-- The constants of the blocks.
abbrev pub block_type_shb : ℕ
block_type_shb = 0x0a0d0d0a

abbrev pub block_type_idb : ℕ
block_type_idb = 1

abbrev pub block_type_epb : ℕ
block_type_epb = 6

abbrev pub byte_order_magic : ℕ
byte_order_magic = 0x1a2b3c4d

abbrev pub link_type_ethernet : ℕ
link_type_ethernet = 1

abbrev pub snap_len : ℕ
snap_len = 262144

-- What `writeSHB` writes.
pub shb : List ℕ
shb =
    let buf = put_le32 (zeros 28) 0 block_type_shb in
    let buf = put_le32 buf 4 28 in
    let buf = put_le32 buf 8 byte_order_magic in
    let buf = put_le16 buf 12 1 in
    let buf = put_le16 buf 14 0 in let buf = put_le64 buf 16 (2 ^ 64 - 1) in put_le32 buf 24 28

-- What `writeIDB` writes.
pub idb : List ℕ
idb =
    let buf = put_le32 (zeros 20) 0 block_type_idb in
    let buf = put_le32 buf 4 20 in
    let buf = put_le16 buf 8 link_type_ethernet in
    let buf = put_le16 buf 10 0 in let buf = put_le32 buf 12 snap_len in put_le32 buf 16 20

abbrev pub pad_of : ℕ → ℕ
pad_of cap_len = (4 - cap_len % 4) % 4

abbrev pub epb_total : ℕ → ℕ
epb_total cap_len = 12 + (20 + cap_len + pad_of cap_len)

-- What `WriteFrame` writes behind the header: `fill_epb` is all but the trailing length.
pub fill_epb : List ℕ → List ℕ → ℕ → List ℕ
fill_epb buf frame ts =
    let buf = put_le32 buf 0 block_type_epb in
    let buf = put_le32 buf 4 (epb_total (length frame)) in
    let buf = put_le32 buf 8 0 in
    let buf = put_le32 buf 12 (ts / 2 ^ 32) in
    let buf = put_le32 buf 16 (ts % 2 ^ 32) in
    let buf = put_le32 buf 20 (length frame) in
    let buf = put_le32 buf 24 (length frame) in copy_at buf 28 frame

pub epb : List ℕ → ℕ → List ℕ
unfolding fill_epb
epb frame ts =
    let total = epb_total (length frame) in
    put_le32 (fill_epb (zeros total) frame ts) (total - 4) total

pub record PcapngWriter (W : Type 0) : Type 0 where
  pub w : W
  pub wrote_hdr : Bool

pub new_pcapng_writer : {W : Type 0} → W → PcapngWriter W
new_pcapng_writer w = record { w = w; wrote_hdr = false }

module _ {W : Type 0} (write : W → List ℕ → W × Bool) where
  -- `false` is the error of the io.Writer.
  after_idb : PcapngWriter W → W × Bool → PcapngWriter W × Bool
  after_idb p (w, ok) = (record { w = w; wrote_hdr = if ok then true else p.wrote_hdr }, ok)

  after_shb : PcapngWriter W → W × Bool → PcapngWriter W × Bool
  unfolding after_idb
  after_shb p (w, ok) = if ok then after_idb p (write w idb) else (record p { w = w }, false)

  pub write_header : PcapngWriter W → PcapngWriter W × Bool
  unfolding after_shb
  write_header p = if p.wrote_hdr then (p, true) else after_shb p (write p.w shb)

  after_header : List ℕ → ℕ → PcapngWriter W × Bool → PcapngWriter W × Bool
  after_header frame ts (p, ok) =
      let sent = write p.w (epb frame ts) in
      if ok then (record p { w = sent.0 }, sent.1) else (p, false)

  pub write_frame : PcapngWriter W → List ℕ → ℕ → PcapngWriter W × Bool
  unfolding after_header
  write_frame p frame ts = after_header frame ts (write_header p)
