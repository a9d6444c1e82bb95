-- ===== src/Relay/Pcapng/Blocks.antt =====
-- pcapng.go: a reader of one block of the format, and what it makes of the blocks written.
use iolbox.Common.{
  ℕ, ◌+◌, ◌-◌, ◌*◌, ◌/◌, ◌%◌, ◌^◌, ◌<◌, ◌≡◌, refl, ap, ◌∙◌, true, ◌&&◌, if◌then◌else◌, leb, ◌==◌,
  List, [], ◌∷◌, ◌++◌, length, take, drop, Option, some, none, ◌>>=◌, arith, length-append,
  append_assoc, length-replicate, take-length-append, drop-length-append, ==_refl,
}
use iolbox.Common.Bytes.{be16, be32, zeros, copy_at, replicate-add, bytes32_value, copy_at-nil}
use iolbox.Relay.Pcapng.{bytes_le32, epb, fill_epb, epb_total, pad_of}

unfoldable pub read_le32 : List ℕ → Option (ℕ × List ℕ)
read_le32 (a ∷ b ∷ c ∷ d ∷ rest) = some (be32 d c b a, rest)
read_le32 _ = none

-- A block: its type and body, and what follows it. Its two lengths must agree.
unfoldable pub read_block : List ℕ → Option ((ℕ × List ℕ) × List ℕ)
unfolding read_le32
read_block input = do
  (kind, input) ← read_le32 input
  (total, input) ← read_le32 input
  (trailing, rest) ← read_le32 (drop (total - 12) input)
  if trailing == total && total % 4 == 0 then some ((kind, take (total - 12) input), rest) else none

unfoldable pub read_le16 : List ℕ → Option (ℕ × List ℕ)
read_le16 (a ∷ b ∷ rest) = some (be16 b a, rest)
read_le16 _ = none

-- The body of a section header: little-endian, version 1.0, of a length that is not given.
unfoldable pub read_section : List ℕ → Option (Unit {0})
unfolding read_le32 read_le16
read_section body = do
  (magic, body) ← read_le32 body
  (major, body) ← read_le16 body
  (minor, body) ← read_le16 body
  (low, body) ← read_le32 body
  (high, body) ← read_le32 body
  if magic == 0x1a2b3c4d && major == 1 && minor == 0 && low == 0xffffffff && high == 0xffffffff
      then some tt
      else none

-- The body of an interface description: the link type, and the snapshot length.
unfoldable pub read_interface : List ℕ → Option (ℕ × ℕ)
unfolding read_le32 read_le16
read_interface body = do
  (link_type, body) ← read_le16 body
  (_, body) ← read_le16 body
  (snap_len, body) ← read_le32 body
  some (link_type, snap_len)

-- The frame and the timestamp of the body of an enhanced packet block of the first interface.
pub read_epb : List ℕ → Option (List ℕ × ℕ)
unfolding read_le32
read_epb body = do
  (interface, body) ← read_le32 body
  (high, body) ← read_le32 body
  (low, body) ← read_le32 body
  (cap_len, body) ← read_le32 body
  (orig_len, body) ← read_le32 body
  if interface == 0 && cap_len == orig_len && leb cap_len (length body)
      then some (take cap_len body, high * 2 ^ 32 + low)
      else none

-- `read_le32` gets back a number that fits.
read_le32-bytes_le32 :
    (v : ℕ) (rest : List ℕ) → v < 4294967296 → read_le32 (bytes_le32 v ++ rest) ≡ some (v, rest)
unfolding read_le32
read_le32-bytes_le32 v rest h = rw (bytes32_value v h)

abbrev pub framed : ℕ → List ℕ → List ℕ
framed kind body =
    bytes_le32 kind ++ bytes_le32 (12 + length body) ++ body ++ bytes_le32 (12 + length body)

pub read_block-framed :
    (kind : ℕ) (body rest : List ℕ)
    → kind < 4294967296
    → 12 + length body < 4294967296
    → length body % 4 ≡ 0
    → read_block (framed kind body ++ rest) ≡ some ((kind, body), rest)
unfolding read_block
read_block-framed kind body rest k l a =
    let total = 12 + length body in
    let tail = bytes_le32 total in
    let less : total - 12 ≡ length body = omega arith in
    let fits : total % 4 ≡ 0 = omega (arith, a) in
    let shape : framed kind body ++ rest
        ≡ bytes_le32 kind ++ (bytes_le32 total ++ (body ++ (tail ++ rest))) =
      ap (λ (l : List ℕ). bytes_le32 kind ++ (bytes_le32 total ++ l))
        (append_assoc body tail rest) in
    ap read_block shape
    ∙ rw (
      bytes32_value kind k,
      bytes32_value total l,
      less,
      drop-length-append body (tail ++ rest),
      take-length-append body (tail ++ rest),
      bytes32_value total l,
      fits,
      ==_refl total,
    )

-- A copy into a buffer, at the length of what stands before.
copy_at-append :
    (pre rest src : List ℕ) → copy_at (pre ++ rest) (length pre) src ≡ pre ++ copy_at rest 0 src
copy_at-append [] rest src = refl
copy_at-append (x ∷ pre) rest src = ap (λ (l : List ℕ). x ∷ l) (copy_at-append pre rest src)

copy_at-zeros_append :
    (src rest : List ℕ) → copy_at (zeros (length src) ++ rest) 0 src ≡ src ++ rest
copy_at-zeros_append [] [] = refl
copy_at-zeros_append [] (x ∷ rest) = refl
copy_at-zeros_append (x ∷ src) rest = ap (λ (l : List ℕ). x ∷ l) (copy_at-zeros_append src rest)

pub epb_head : List ℕ → ℕ → List ℕ
epb_head frame ts =
    bytes_le32 0
    ++ bytes_le32 (ts / 2 ^ 32)
    ++ bytes_le32 (ts % 2 ^ 32)
    ++ bytes_le32 (length frame)
    ++ bytes_le32 (length frame)

fill_epb-zeros :
    (frame rest : List ℕ) (ts : ℕ)
    → fill_epb (zeros 28 ++ (zeros (length frame) ++ rest)) frame ts
      ≡ bytes_le32 6
        ++ (bytes_le32 (epb_total (length frame)) ++ (epb_head frame ts ++ (frame ++ rest)))
unfolding fill_epb epb_head
fill_epb-zeros frame rest ts =
    rw (copy_at-nil (zeros (length frame) ++ rest), copy_at-zeros_append frame rest)

pub length-epb_body :
    (frame : List ℕ) (ts : ℕ)
    → 12 + length (epb_head frame ts ++ (frame ++ zeros (pad_of (length frame))))
      ≡ epb_total (length frame)
unfolding epb_head
length-epb_body frame ts = omega (
  arith,
  length-append frame (zeros (pad_of (length frame))),
  length-replicate {A = ℕ} (pad_of (length frame)) 0,
)

pub epb-framed :
    (frame : List ℕ) (ts : ℕ)
    → epb frame ts ≡ framed 6 (epb_head frame ts ++ (frame ++ zeros (pad_of (length frame))))
unfolding epb
epb-framed frame ts =
    let n = length frame in
    let p = pad_of n in
    let total = epb_total n in
    let body = epb_head frame ts ++ (frame ++ zeros p) in
    let front = bytes_le32 6 ++ (bytes_le32 total ++ body) in
    let split : zeros total ≡ zeros 28 ++ (zeros n ++ (zeros p ++ zeros 4)) =
      let e : total ≡ 28 + (n + (p + 4)) = omega arith in
      rw (
        e,
        replicate-add {A = ℕ} 28 (n + (p + 4)) 0,
        replicate-add {A = ℕ} n (p + 4) 0,
        replicate-add {A = ℕ} p 4 0,
      ) in
    let filled : fill_epb (zeros total) frame ts ≡ front ++ zeros 4 =
      rw
        (
          split,
          append_assoc (epb_head frame ts) (frame ++ zeros p) (zeros 4),
          append_assoc frame (zeros p) (zeros 4),
        )
        (fill_epb-zeros frame (zeros p ++ zeros 4) ts) in
    let at_end : total - 4 ≡ length front = omega (arith, length-epb_body frame ts) in
    rw (filled, at_end, copy_at-append front (zeros 4) (bytes_le32 total), length-epb_body frame ts)

pub read_epb-body :
    (frame : List ℕ) (ts : ℕ)
    → length frame < 4294967296
    → ts < 2 ^ 64
    → read_epb (epb_head frame ts ++ (frame ++ zeros (pad_of (length frame)))) ≡ some (frame, ts)
unfolding read_epb epb_head
read_epb-body frame ts short small =
    let whole : ts / 2 ^ 32 * 2 ^ 32 + ts % 2 ^ 32 ≡ ts = omega arith in
    let fits : leb (length frame) (length (frame ++ zeros (pad_of (length frame)))) ≡ true =
      rw length-append (ground arith) in
    rw (
      bytes32_value (length frame) short,
      bytes32_value (ts / 2 ^ 32) (omega arith),
      bytes32_value (ts % 2 ^ 32) (omega arith),
      ==_refl (length frame),
      fits,
      take-length-append frame (zeros (pad_of (length frame))),
      whole,
    )
