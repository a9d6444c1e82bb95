-- ===== src/Ws/Progress.antt =====
-- ws.go: every round of the reading loops takes bytes, so `ReadMessage` comes to an end.
use iolbox.Common.{
  ℕ, zero, suc, ◌+◌, ◌/◌, ◌%◌, ◌<◌, ◌≤◌, ◌≡◌, ◌≢◌, inl, inr, Bool, true, false, not, Bool-cases,
  ltb, ◌==◌, if◌then◌else◌, List, [], ◌∷◌, length, length-drop, arith,
}
use iolbox.Ws.{
  Result, ok, err, stuck, WsError, ◌>>=◌, FrameHeader, read_full, read_length, read_key,
  header_from, read_frame_header, unmask, read_one, Partial, Next, after_frame, start, frame_loop,
  read_frame, Conn, write_frame, message_loop, read_message, max_frame_size,
}

-- A reader that does not get stuck, and whose values leave at least `k` bytes fewer than `n`.
abbrev pub Leaves {ℓ} : {A : Type ℓ} → (A → List ℕ) → ℕ → ℕ → Result A → Type 0
Leaves rest k n (ok a) = length (rest a) + k ≤ n
Leaves rest k n (err e) = Unit
Leaves rest k n stuck = ⊥

Leaves-bind {ℓ κ} :
    {A : Type ℓ} {B : Type κ} (g : A → List ℕ) (h : B → List ℕ) (i j n k : ℕ) (m : Result A)
    (f : A → Result B)
    → Leaves g i n m
    → ((a : A) → length (g a) + i ≤ n → Leaves h j k (f a))
    → Leaves h j k (m >>= f)
Leaves-bind g h i j n k (ok a) f p q = q a p
Leaves-bind g h i j n k (err e) f p q = tt
Leaves-bind g h i j n k stuck f p q = p

-- What is left behind a value of two parts, and of three.
abbrev rest₂ {ℓ} : {A : Type ℓ} → A × List ℕ → List ℕ
rest₂ p = p.1

abbrev pub rest₃ {ℓ κ} : {A : Type ℓ} {B : Type κ} → A × B × List ℕ → List ℕ
rest₃ p = p.2

read_full-Leaves : (n : ℕ) (input : List ℕ) → Leaves rest₂ 0 (length input) (read_full n input)
unfolding read_full
read_full-Leaves n input = elim (Bool-cases (ltb (length input) n)) [
  | inl e ↦ rw e tt
  | inr e ↦ rw e (omega (arith, length-drop n input))
]

read_length-Leaves : (l : ℕ) (input : List ℕ) → Leaves rest₂ 0 (length input) (read_length l input)
unfolding read_length
read_length-Leaves l input = elim (Bool-cases (l == 126)) [
  | inl e ↦ rw e (Leaves-bind rest₂ rest₂ 0 0 _ _ _ _ (read_full-Leaves 2 input) (λ a h. h))
  | inr e ↦ rw e (elim (Bool-cases (l == 127)) [
    | inl d ↦ rw d (Leaves-bind rest₂ rest₂ 0 0 _ _ _ _ (read_full-Leaves 8 input) (λ a h. h))
    | inr d ↦ rw d (omega arith)
  ])
]

read_key-Leaves : (m : Bool) (input : List ℕ) → Leaves rest₂ 0 (length input) (read_key m input)
unfolding read_key
read_key-Leaves true input = read_full-Leaves 4 input
read_key-Leaves false input = omega arith

header_from-Leaves :
    (b0 b1 : ℕ) (input : List ℕ) → Leaves rest₂ 0 (length input) (header_from b0 b1 input)
unfolding header_from
header_from-Leaves b0 b1 input = elim (Bool-cases (b0 / 16 % 8 == 0)) [
  | inl e ↦ rw e (
      Leaves-bind rest₂ rest₂ 0 0 _ _ _ _ (read_length-Leaves (b1 % 128) input) (λ a h.
        Leaves-bind rest₂ rest₂ 0 0 _ _ _ _ (read_key-Leaves (not (b1 / 128 % 2 == 0)) (a.1))
          (λ b k. omega arith)))
  | inr e ↦ rw e tt
]

weaken :
    (r : Result (FrameHeader × List ℕ)) (n : ℕ)
    → Leaves rest₂ 0 n r
    → Leaves rest₂ 2 (suc (suc n)) r
weaken (ok a) n h = omega arith
weaken (err e) n h = tt
weaken stuck n h = h

-- A header takes two bytes at least.
read_frame_header-Leaves :
    (input : List ℕ) → Leaves rest₂ 2 (length input) (read_frame_header input)
unfolding read_frame_header
read_frame_header-Leaves [] = tt
read_frame_header-Leaves (b0 ∷ []) = tt
read_frame_header-Leaves (b0 ∷ b1 ∷ input) = weaken _ _ (header_from-Leaves b0 b1 input)

read_data-Leaves :
    (hdr : FrameHeader) (input : List ℕ) (n : ℕ)
    → length input + 2 ≤ n
    → Leaves rest₃ 2 n (
        if not hdr.masked
        then err WsError.not_masked
        else if ltb max_frame_size hdr.len
        then err WsError.frame_too_large
        else (read_full hdr.len input >>= λ p. ok (hdr, unmask p.0 hdr.mask_key, p.1)))
read_data-Leaves hdr input n h = elim (Bool-cases (not hdr.masked)) [
  | inl e ↦ rw e tt
  | inr e ↦ rw e (elim (Bool-cases (ltb max_frame_size hdr.len)) [
    | inl d ↦ rw d tt
    | inr d ↦
        rw d (
          Leaves-bind rest₂ rest₃ 0 2 _ _ _ _ (read_full-Leaves hdr.len input) (λ a k. omega arith))
  ])
]

pub read_one-Leaves : (input : List ℕ) → Leaves rest₃ 2 (length input) (read_one input)
unfolding read_one
read_one-Leaves input =
    Leaves-bind rest₂ rest₃ 2 2 _ _ _ _ (read_frame_header-Leaves input)
      (λ a h. read_data-Leaves (a.0) (a.1) _ h)

widen :
    (r : Result (ℕ × List ℕ × List ℕ)) (m n : ℕ) → m ≤ n → Leaves rest₃ 2 m r → Leaves rest₃ 2 n r
widen (ok a) m n h p = omega arith
widen (err e) m n h p = tt
widen stuck m n h p = p

next-Leaves :
    (x : Next) (rest : List ℕ) (n : ℕ) (loop : Partial → Result (ℕ × List ℕ × List ℕ))
    → length rest + 2 ≤ n
    → ((q : Partial) → Leaves rest₃ 2 (length rest) (loop q))
    → Leaves rest₃ 2 n (elim x [
      | Next.deliver op payload ↦ ok (op, payload, rest)
      | Next.fail e ↦ err e
      | Next.again q ↦ loop q
    ])
next-Leaves (Next.deliver op payload) rest n loop h l = h
next-Leaves (Next.fail e) rest n loop h l = tt
next-Leaves (Next.again q) rest n loop h l = widen (loop q) (length rest) n (omega arith) (l q)

frame_loop-Leaves :
    (fuel : ℕ) (p : Partial) (input : List ℕ)
    → length input < fuel
    → Leaves rest₃ 2 (length input) (frame_loop fuel p input)
unfolding frame_loop
frame_loop-Leaves zero p input h = elim h [ ]
frame_loop-Leaves (suc fuel) p input h =
    Leaves-bind rest₃ rest₃ 2 2 _ _ _ _ (read_one-Leaves input) (λ a k.
      next-Leaves (after_frame p (a.0) (a.1)) (a.2) _ (λ q. frame_loop fuel q (a.2)) k
        (λ q. frame_loop-Leaves fuel q (a.2) (omega arith)))

-- `readFrame` on any input: it ends, and a message takes two bytes of it at least.
pub read_frame-Leaves : (input : List ℕ) → Leaves rest₃ 2 (length input) (read_frame input)
unfolding read_frame
read_frame-Leaves input = frame_loop-Leaves (suc (length input)) start input (omega arith)

write_frame-ne-stuck : (c : Conn) (op : ℕ) (payload : List ℕ) → (write_frame c op payload).1 ≢ stuck
unfolding write_frame
write_frame-ne-stuck c op payload = ground arith

write_frame_input :
    (c : Conn) (op : ℕ) (payload : List ℕ) → (write_frame c op payload).0.input ≡ c.input
unfolding write_frame
write_frame_input c op payload = ground arith

message_loop-ne-stuck :
    (fuel : ℕ) (c : Conn) → length c.input < fuel → (message_loop fuel c).1 ≢ stuck
unfolding message_loop
message_loop-ne-stuck zero c h = elim h [ ]
message_loop-ne-stuck (suc fuel) c h = grind (
  arith,
  read_frame-Leaves c.input,
  message_loop-ne-stuck fuel,
  write_frame-ne-stuck,
  write_frame_input,
)

-- `ReadMessage` comes to an end on every input, with a message, the end or an error: each round of
-- its loops takes two bytes at least, so fuel of one more than the bytes there are is enough.
pub read_message-ne-stuck : (c : Conn) → (read_message c).1 ≢ stuck
unfolding read_message
read_message-ne-stuck c = message_loop-ne-stuck (suc (length c.input)) c (omega arith)
