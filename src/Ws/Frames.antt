-- ===== src/Ws/Frames.antt =====
-- ws.go: one frame, as RFC 6455 lays it out, read back by the server.
use iolbox.Common.{
  ℕ, suc, ◌+◌, ◌/◌, ◌%◌, ◌^◌, ◌<◌, ◌≤◌, ◌≡◌, refl, ap, Bool, true, false, ltb, if◌then◌else◌, List,
  [], ◌∷◌, ◌++◌, append_assoc, length, length-append, take-length-append, drop-length-append, All,
  arith,
}
use iolbox.Common.Bytes.{IsByte, bytes16, bytes32, bytes16_value, bytes32_value}
use iolbox.Common.Xor.{xor_twice}
use iolbox.Ws.{
  ok, read_full, read_length, read_key, header_from, read_frame_header, unmask, unmask_from,
  key_byte, read_one, max_frame_size, write_header,
}

-- A masking key of four bytes.
pub record Key : Type 0 where
  pub bytes : List ℕ
  pub four : length bytes ≡ 4
  pub each : (i : ℕ) → key_byte bytes i < 256

-- The length of a frame behind its mask bit: 7 bits, or 126 and 16 bits, or 127 and 64 bits.
unfoldable pub length_bytes : ℕ → ℕ → List ℕ
length_bytes mask n =
    if ltb n 126
    then (mask + n) ∷ []
    else if ltb n 65536
    then (mask + 126) ∷ bytes16 n
    else (mask + 127) ∷ (bytes32 (n / 2 ^ 32) ++ bytes32 n)

abbrev fin_bit : Bool → ℕ
fin_bit true = 128
fin_bit false = 0

-- A frame as a client sends it: masked with its key.
unfoldable pub client_frame : Bool → ℕ → Key → List ℕ → List ℕ
unfolding length_bytes
client_frame fin op key payload =
    (fin_bit fin + op)
    ∷ (length_bytes 128 (length payload) ++ (key.bytes ++ unmask payload key.bytes))

length-unmask_from : (i : ℕ) (p key : List ℕ) → length (unmask_from i p key) ≡ length p
unfolding unmask_from
length-unmask_from i [] key = refl
length-unmask_from i (x ∷ xs) key = ap suc (length-unmask_from (i + 1) xs key)

unmask_from_twice :
    (i : ℕ) (p : List ℕ) (key : Key)
    → All IsByte p
    → unmask_from i (unmask_from i p key.bytes) key.bytes ≡ p
unfolding unmask_from
unmask_from_twice i [] key h = refl
unmask_from_twice i (x ∷ xs) key (hx, hs) =
    rw (xor_twice x (key_byte key.bytes (i % 4)) hx (key.each (i % 4)))
      (ap (λ (l : List ℕ). x ∷ l) (unmask_from_twice (i + 1) xs key hs))

-- Masking and unmasking with one key undo one another.
unmask-unmask : (p : List ℕ) (key : Key) → All IsByte p → unmask (unmask p key.bytes) key.bytes ≡ p
unfolding unmask
unmask-unmask p key h = unmask_from_twice 0 p key h

length-unmask : (p key : List ℕ) → length (unmask p key) ≡ length p
unfolding unmask
length-unmask p key = length-unmask_from 0 p key

read_full-append : (n : ℕ) (a b : List ℕ) → length a ≡ n → read_full n (a ++ b) ≡ ok (a, b)
unfolding read_full
read_full-append n a b h =
    rw (← h) (ground (arith, length-append a b, take-length-append a b, drop-length-append a b))

-- The length behind the first two bytes, in each of its three forms.
abbrev second_byte : ℕ → ℕ
second_byte n = if ltb n 126 then n else if ltb n 65536 then 126 else 127

abbrev length_tail : ℕ → List ℕ
length_tail n =
    if ltb n 126 then [] else if ltb n 65536 then bytes16 n else bytes32 (n / 2 ^ 32) ++ bytes32 n

length_bytes-cons : (mask n : ℕ) → length_bytes mask n ≡ (mask + second_byte n) ∷ length_tail n
unfolding length_bytes
length_bytes-cons mask n = ground arith

read_length-tail :
    (n : ℕ) (rest : List ℕ)
    → n < 2 ^ 64
    → read_length (second_byte n) (length_tail n ++ rest) ≡ ok (n, rest)
unfolding read_length read_full
read_length-tail n rest h =
    ground (arith, bytes16_value n, bytes32_value n, bytes32_value (n / 2 ^ 32))

header_of-frame :
    (fin : Bool) (op n : ℕ) (key : Key) (rest : List ℕ)
    → op < 16
    → n < 2 ^ 64
    → header_from (fin_bit fin + op) (128 + second_byte n) (length_tail n ++ (key.bytes ++ rest))
      ≡ ok (record { fin = fin; opcode = op; masked = true; len = n; mask_key = key.bytes }, rest)
unfolding header_from read_key
header_of-frame fin op n key rest ho hn =
    let low : (128 + second_byte n) % 128 ≡ second_byte n = ground arith in
    let masked : (128 + second_byte n) / 128 % 2 ≡ 1 = ground arith in
    ground (
      arith,
      low,
      masked,
      read_length-tail n (key.bytes ++ rest) hn,
      read_full-append 4 key.bytes rest key.four,
    )

client_frame-cons :
    (fin : Bool) (op : ℕ) (key : Key) (p rest : List ℕ)
    → client_frame fin op key p ++ rest
      ≡ (fin_bit fin + op)
        ∷ (128 + second_byte (length p))
        ∷ (length_tail (length p) ++ (key.bytes ++ (unmask p key.bytes ++ rest)))
unfolding client_frame
client_frame-cons fin op key p rest = simp (length_bytes-cons, append_assoc)

-- The next frame of the input, read off a client's frame: its bits, its opcode and its payload
-- unmasked, and what follows it.
pub read_one-client_frame :
    (fin : Bool) (op : ℕ) (key : Key) (p rest : List ℕ)
    → op < 16
    → All IsByte p
    → length p ≤ max_frame_size
    → read_one (client_frame fin op key p ++ rest)
      ≡ ok (
        record { fin = fin; opcode = op; masked = true; len = length p; mask_key = key.bytes },
        p,
        rest,
      )
unfolding read_one read_frame_header
read_one-client_frame fin op key p rest ho hb hl = rw (client_frame-cons fin op key p rest) (
    ground (
      arith,
      header_of-frame fin op (length p) key (unmask p key.bytes ++ rest) ho (omega arith),
      read_full-append (length p) (unmask p key.bytes) rest (length-unmask p key.bytes),
      unmask-unmask p key hb,
    ))

write_header-cons : (op n : ℕ) → write_header op n ≡ (128 + op) ∷ second_byte n ∷ length_tail n
unfolding write_header
write_header-cons op n = ground arith

-- The header that the server writes in front of a payload is read back with that payload's length:
-- final, unmasked and of the opcode given, for every opcode of four bits and every length that a
-- uint64 holds.
pub read_frame_header-write_header :
    (op n : ℕ) (rest : List ℕ)
    → op < 16
    → n < 2 ^ 64
    → read_frame_header (write_header op n ++ rest)
      ≡ ok (
        record { fin = true; opcode = op; masked = false; len = n; mask_key = 0 ∷ 0 ∷ 0 ∷ 0 ∷ [] },
        rest,
      )
unfolding read_frame_header header_from read_key
read_frame_header-write_header op n rest ho hn =
    let low : second_byte n % 128 ≡ second_byte n = ground arith in
    let bare : second_byte n / 128 % 2 ≡ 0 = ground arith in
    rw (write_header-cons op n) (ground (arith, low, bare, read_length-tail n rest hn))
