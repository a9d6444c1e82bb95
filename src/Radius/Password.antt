-- ===== src/Radius/Password.antt =====
-- radius.go: a hidden password is found again.
use iolbox.Common.{
  ℕ, zero, suc, ◌+◌, ◌-◌, ◌*◌, ◌/◌, ◌≤◌, ◌<◌, ◌≡◌, ◌≢◌, refl, ap, ◌∙◌, true, ==_ne, List, [], ◌∷◌,
  ◌++◌, Option, some, length, take, drop, All, length-append, length-take, length-drop,
  length-replicate, take_front, take-drop, drop_front, if_lem, arith,
}
use iolbox.Common.Bytes.{IsByte, zeros}
use iolbox.Common.Texts.{Text}
use iolbox.Tacacs.{xor_with}
use iolbox.Tacacs.Pad.{IsDigest, xor_with_twice, length-xor_with, All-append, All-take}
use iolbox.Radius.{
  is_valid_ciphertext, trim_zero_padding, decode_blocks, encode_blocks, decode_user_password,
  encode_user_password,
}

-- The text does not end with NUL.
abbrev pub EndsNonZero : Text → Type 0
EndsNonZero [] = Unit {0}
EndsNonZero (b ∷ []) = b ≢ 0
EndsNonZero (b ∷ c ∷ text) = EndsNonZero (c ∷ text)

trim_zero_padding-zeros : (n : ℕ) → trim_zero_padding (zeros n) ≡ []
unfolding trim_zero_padding
trim_zero_padding-zeros zero = refl
trim_zero_padding-zeros (suc n) = rw (trim_zero_padding-zeros n)

trim_zero_padding-append :
    (text : Text) (n : ℕ) → EndsNonZero text → trim_zero_padding (text ++ zeros n) ≡ text
unfolding trim_zero_padding
trim_zero_padding-append [] n ends = trim_zero_padding-zeros n
trim_zero_padding-append (b ∷ []) n ends = rw (trim_zero_padding-zeros n, ==_ne b 0 ends)
trim_zero_padding-append (b ∷ c ∷ text) n ends = rw (trim_zero_padding-append (c ∷ text) n ends)

All-drop : (n : ℕ) (s : List ℕ) → All IsByte s → All IsByte (drop n s)
All-drop zero s h = h
All-drop (suc n) [] h = tt
All-drop (suc n) (c ∷ s) h = All-drop n s h.1

All-zeros : (n : ℕ) → All IsByte (zeros n)
All-zeros zero = tt
All-zeros (suc n) = (omega arith, All-zeros n)

module _ (md5 : List ℕ → List ℕ) (digest : IsDigest md5) (secret : List ℕ) where
  decode_blocks-suc :
      (fuel : ℕ) (previous ciphertext : List ℕ)
      → 0 < length ciphertext
      → decode_blocks md5 (suc fuel) secret previous ciphertext
        ≡ xor_with (take 16 ciphertext) (md5 (secret ++ previous))
          ++ decode_blocks md5 fuel secret (take 16 ciphertext) (drop 16 ciphertext)
  unfolding decode_blocks
  decode_blocks-suc fuel previous [] h = absurd (omega (arith, h))
  decode_blocks-suc fuel previous (b ∷ ciphertext) h = refl

  decode_blocks-nil :
      (fuel : ℕ) (previous : List ℕ) → decode_blocks md5 fuel secret previous [] ≡ []
  unfolding decode_blocks
  decode_blocks-nil zero previous = refl
  decode_blocks-nil (suc fuel) previous = refl

  encode_blocks-nil : (n : ℕ) (previous : List ℕ) → encode_blocks md5 n secret previous [] ≡ []
  unfolding encode_blocks
  encode_blocks-nil zero previous = refl
  encode_blocks-nil (suc n) previous = refl

  -- A block of 16 bytes in front.
  decode_blocks-append :
      (fuel : ℕ) (previous block rest : List ℕ)
      → length block ≡ 16
      → decode_blocks md5 (suc fuel) secret previous (block ++ rest)
        ≡ xor_with block (md5 (secret ++ previous)) ++ decode_blocks md5 fuel secret block rest
  decode_blocks-append fuel previous block rest h =
      let front : take 16 (block ++ rest) ≡ block = take_front 16 block rest h in
      let behind : drop 16 (block ++ rest) ≡ rest = drop_front 16 block rest h in
      decode_blocks-suc fuel previous (block ++ rest) (omega (arith, h, length-append block rest))
      ∙ rw (front, behind)

  decode_blocks-encode :
      (k fuel n : ℕ) (previous padded : List ℕ)
      → length padded ≡ 16 * k
      → k ≤ fuel
      → k ≤ n
      → All IsByte padded
      → (decode_blocks md5 fuel secret previous (encode_blocks md5 n secret previous padded)
          ≡ padded)
        × (length (encode_blocks md5 n secret previous padded) ≡ 16 * k)
  unfolding encode_blocks IsDigest
  decode_blocks-encode zero fuel n previous [] long f g b = (
    rw (encode_blocks-nil n previous) (decode_blocks-nil fuel previous),
    rw (encode_blocks-nil n previous),
  )
  decode_blocks-encode zero fuel n previous (x ∷ p) long f g b = absurd (omega (arith, long))
  decode_blocks-encode (suc k) fuel n previous [] long f g b = absurd (omega (arith, long))
  decode_blocks-encode (suc k) zero n previous (x ∷ p) long f g b = absurd (omega arith)
  decode_blocks-encode (suc k) (suc fuel) zero previous (x ∷ p) long f g b = absurd (omega arith)
  decode_blocks-encode (suc k) (suc fuel) (suc n) previous (x ∷ p) long f g b =
      let padded : List ℕ = x ∷ p in
      let mask = md5 (secret ++ previous) in
      let (mask_length, mask_bytes) = digest (secret ++ previous) in
      let sixteen : length (take 16 padded) ≡ 16 = omega (arith, length-take 16 padded, long) in
      let fits : length (take 16 padded) ≤ length mask = omega (arith, sixteen, mask_length) in
      let block = xor_with (take 16 padded) mask in
      let block_length : length block ≡ 16 = length-xor_with (take 16 padded) mask fits ∙ sixteen in
      let rest =
        decode_blocks-encode k fuel n block (drop 16 padded)
          (omega (arith, length-drop 16 padded, long)) (omega (arith, f)) (omega (arith, g))
          (All-drop 16 padded b) in
      let back = xor_with_twice (take 16 padded) mask (All-take 16 padded b) mask_bytes fits in
      let coded = encode_blocks md5 n secret block (drop 16 padded) in
      (
        decode_blocks-append fuel previous block coded block_length
            ∙ ap (λ (l : List ℕ). l ++ decode_blocks md5 fuel secret block coded) back
            ∙ ap (λ (l : List ℕ). take 16 padded ++ l) rest.0
            ∙ take-drop 16 padded,
        omega (arith, length-append block coded, block_length, rest.1),
      )

is_valid_ciphertext-blocks :
    (ciphertext : List ℕ) (k : ℕ)
    → length ciphertext ≡ 16 * k
    → 0 < k
    → k ≤ 8
    → is_valid_ciphertext ciphertext ≡ true
is_valid_ciphertext-blocks [] k long some_blocks few = absurd (omega (arith, long))
is_valid_ciphertext-blocks (b ∷ ciphertext) k long some_blocks few = ground (arith, long)

pub length-encode_user_password :
    (md5 : List ℕ → List ℕ) (digest : IsDigest md5) (password : Text)
    (authenticator secret : List ℕ)
    → length password ≤ 127
    → All IsByte password
    → length (encode_user_password md5 password authenticator secret) ≤ 128
unfolding encode_user_password
length-encode_user_password md5 digest password authenticator secret short b =
    let k = length password / 16 + 1 in
    let n = k * 16 in
    let tail = zeros (n - length password) in
    let long : length (password ++ tail) ≡ 16 * k =
      omega (
        arith,
        length-append password tail,
        length-replicate {0} {A = ℕ} (n - length password) 0,
      ) in
    let sized =
      (decode_blocks-encode md5 digest secret k n n authenticator (password ++ tail) long
        (omega arith) (omega arith)
        (All-append password tail b (All-zeros (n - length password)))).1 in
    omega (arith, sized, short)

-- Any password of at most 127 bytes that does not end with NUL is decoded with the authenticator and the
-- secret by which it was hidden, for any MD5 whose digests are 16 bytes.
pub decode_user_password-encode :
    (md5 : List ℕ → List ℕ) (digest : IsDigest md5) (password : Text)
    (authenticator secret : List ℕ)
    → length password ≤ 127
    → All IsByte password
    → EndsNonZero password
    → decode_user_password md5
        (encode_user_password md5 password authenticator secret)
        authenticator
        secret
      ≡ some password
unfolding decode_user_password encode_user_password
decode_user_password-encode md5 digest password authenticator secret short b ends =
    let k = length password / 16 + 1 in
    let n = k * 16 in
    let padded = password ++ zeros (n - length password) in
    let long : length padded ≡ 16 * k = omega (
      arith,
      length-append password (zeros (n - length password)),
      length-replicate {0} {A = ℕ} (n - length password) 0,
    ) in
    let coded = encode_blocks md5 n secret authenticator padded in
    let bytes =
      All-append password (zeros (n - length password)) b (All-zeros (n - length password)) in
    let sized =
      (decode_blocks-encode md5 digest secret k n n authenticator padded long (omega arith)
        (omega arith) bytes).1 in
    let plain =
      (decode_blocks-encode md5 digest secret k (length coded) n authenticator padded long
        (omega (arith, sized)) (omega arith) bytes).0 in
    if_lem (λ (o : Option Text). o ≡ some password) (is_valid_ciphertext coded)
      (λ _. ap some (ap trim_zero_padding plain ∙ trim_zero_padding-append password _ ends))
      (λ bad.
        absurd
          (cc (bad, is_valid_ciphertext-blocks coded k sized (omega arith) (omega (arith, short)))))
