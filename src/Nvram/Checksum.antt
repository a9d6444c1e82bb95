-- ===== src/Nvram/Checksum.antt =====
-- nvram.go: the internet checksum. Its sum folds to 16 bits in three rounds and keeps the sum
-- modulo 65535, so a section with its checksum in place sums to 0xFFFF.
use iolbox.Common.{
  ℕ, suc, ◌+◌, ◌-◌, ◌*◌, ◌/◌, ◌%◌, ◌<◌, ◌≤◌, ◌≡◌, ◌≢◌, refl, ap, ◌∙◌, List, [], ◌∷◌, some, length,
  All, arith,
}
use iolbox.Common.Bytes.{be16, IsByte}
use native.Mathlib.Decide.{dec_lt}
use iolbox.Nvram.{fold_carries, fold_fuel, sum_words}

-- A folded sum: below 2^16, the same modulo 65535, and zero only for zero.
pub record Folded (s r : ℕ) : Type 0 where
  pub fits : r < 65536
  pub kept : r % 65535 ≡ s % 65535
  pub zero_only : r ≡ 0 → s ≡ 0
  pub zero_kept : s ≡ 0 → r ≡ 0

fold_done : (fuel s : ℕ) → s < 65536 → fold_carries (suc fuel) s ≡ some s
unfolding fold_carries
fold_done fuel s h = ground arith

fold_again :
    (fuel s : ℕ) → 65536 ≤ s → fold_carries (suc fuel) s ≡ fold_carries fuel (s % 65536 + s / 65536)
unfolding fold_carries
fold_again fuel s h = ground arith

Folded-on : (s r : ℕ) → Folded (s % 65536 + s / 65536) r → Folded s r
Folded-on s r f = record {
  fits = f.fits;
  kept = omega (arith, f.kept);
  zero_only = λ z. omega (arith, f.zero_only z);
  zero_kept = λ z. f.zero_kept (omega arith);
}

-- The folding of `n` rounds at most, below a bound that `n` rounds bring under 2^16.
Folds : (fuel s : ℕ) → Type 0
Folds fuel s = (r : ℕ) × (fold_carries fuel s ≡ some r) × Folded s r

fold_small : (fuel s : ℕ) → s < 65536 → Folds (suc fuel) s
unfolding Folds
fold_small fuel s h = (
  s,
  fold_done fuel s h,
  record { fits = h; kept = refl; zero_only = λ z. z; zero_kept = λ z. z },
)

fold_on : (fuel s : ℕ) → Folds fuel (s % 65536 + s / 65536) → 65536 ≤ s → Folds (suc fuel) s
unfolding Folds
fold_on fuel s (r, e, f0) h = (r, fold_again fuel s h ∙ e, Folded-on s r f0)

fold_either : (fuel s : ℕ) → Folds fuel (s % 65536 + s / 65536) → Folds (suc fuel) s
fold_either fuel s f = elim (dec_lt s 65536) [
  | yes h ↦ fold_small fuel s h
  | no h ↦ fold_on fuel s f (omega arith)
]

-- Three rounds fold every uint32: the loop of `setChecksum` ends, with 16 bits that keep the sum
-- modulo 65535, and with zero only for a zero sum.
pub fold_carries_lem :
    (s : ℕ) → s < 4294967296 → (r : ℕ) × (fold_carries fold_fuel s ≡ some r) × Folded s r
unfolding Folds
fold_carries_lem s h =
    let t1 = s % 65536 + s / 65536 in
    fold_either 2 s (fold_either 1 t1 (fold_small 0 (t1 % 65536 + t1 / 65536) (omega arith)))

-- The sum of the 16-bit words, an odd last byte in the high half, with no wrap.
unfoldable pub word_sum : List ℕ → ℕ
word_sum [] = 0
word_sum (a ∷ []) = a * 256
word_sum (a ∷ b ∷ rest) = be16 a b + word_sum rest

pub word_sum-le : (d : List ℕ) → All IsByte d → 2 * word_sum d ≤ 65535 * (length d + 1)
unfolding word_sum
word_sum-le [] h = omega arith
word_sum-le (a ∷ []) h = omega arith
word_sum-le (a ∷ b ∷ rest) h = omega (arith, word_sum-le rest h.1.1)

pub sum_words-word_sum :
    (d : List ℕ) (s : ℕ) → s + word_sum d < 4294967296 → sum_words d s ≡ s + word_sum d
unfolding sum_words word_sum
sum_words-word_sum [] s h = omega arith
sum_words-word_sum (a ∷ []) s h = omega arith
sum_words-word_sum (a ∷ b ∷ rest) s h =
    let e : (s + be16 a b) % 4294967296 ≡ s + be16 a b = omega arith in
    rw e (omega (arith, sum_words-word_sum rest (s + be16 a b) (omega arith)))

pub sum_words-lt : (d : List ℕ) (s : ℕ) → s < 4294967296 → sum_words d s < 4294967296
unfolding sum_words
sum_words-lt [] s h = h
sum_words-lt (a ∷ []) s h = omega arith
sum_words-lt (a ∷ b ∷ rest) s h = sum_words-lt rest _ (omega arith)

complement_full : (s r q : ℕ) → Folded s r → Folded (s + (65535 - r)) q → q ≡ 65535
complement_full s r q f g = elim (dec_lt 0 s) [
  | yes p ↦
      let nz : q ≢ 0 = λ z. absurd (omega (arith, g.zero_only z)) in
      omega (arith, f.fits, f.kept, g.fits, g.kept, nz)
  | no p ↦
      let z : r ≡ 0 = f.zero_kept (omega arith) in
      let nz : q ≢ 0 = λ y. absurd (omega (arith, g.zero_only y, z)) in
      omega (arith, g.fits, g.kept, nz, z)
]

-- With the complement of the folded sum `r` put where a zero stood, the sum folds to 0xFFFF.
pub fold_complement :
    (s r : ℕ)
    → s + 65535 < 4294967296
    → fold_carries fold_fuel s ≡ some r
    → fold_carries fold_fuel (s + (65535 - r)) ≡ some 65535
fold_complement s r h e =
    let (r', e', f) = fold_carries_lem s (omega arith) in
    let (q, d, g) = fold_carries_lem (s + (65535 - r)) (omega arith) in
    let same : r' ≡ r = ground (arith, e, e') in
    d ∙ ap some (complement_full s r q (rw same at f) g)
