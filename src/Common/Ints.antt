-- ===== src/Common/Ints.antt =====
-- Go's signed integers: a value that is not negative, or a negative one. Their size is written out
-- where a value can pass it.
use Prim.Native.Nat.{ℕ}
use mathlib.Core.Path.{◌≡◌, ap}
use mathlib.Core.Logic.{◌⊎◌, inl, inr, ◌≢◌}
use mathlib.Core.Bool.{Bool, true, false}
use native.Mathlib.Omega.{arith}
use iolbox.Common.Tests.{◌==◌, ltb, Bool-cases}

-- `negsuc n` is -(n + 1).
pub data ℤ : Type 0 where
  pos : ℕ → ℤ
  negsuc : ℕ → ℤ

abbrev pub is_negative : ℤ → Bool
is_negative (pos n) = false
is_negative (negsuc n) = true

-- `max < z` of a bound that is not negative
abbrev pub is_above : ℕ → ℤ → Bool
is_above max (pos n) = ltb max n
is_above max (negsuc n) = false

abbrev pub eq_int : ℤ → ℤ → Bool
eq_int (pos a) (pos b) = a == b
eq_int (negsuc a) (negsuc b) = a == b
eq_int _ _ = false

pub eq_int_refl : (z : ℤ) → eq_int z z ≡ true
eq_int_refl (pos n) = ground arith
eq_int_refl (negsuc n) = ground arith

pub eq_int-eq : (a b : ℤ) → eq_int a b ≡ true → a ≡ b
eq_int-eq (pos a) (pos b) h = ap pos (ground arith)
eq_int-eq (negsuc a) (negsuc b) h = ap negsuc (ground arith)
eq_int-eq (pos a) (negsuc b) h = cc
eq_int-eq (negsuc a) (pos b) h = cc

pub eq_int-cases : (a b : ℤ) → ((eq_int a b ≡ true) × (a ≡ b)) ⊎ ((eq_int a b ≡ false) × (a ≢ b))
eq_int-cases a b = elim (Bool-cases (eq_int a b)) [
  | inl e ↦ inl (e, eq_int-eq a b e)
  | inr e ↦ inr (e, λ p. cc (e, p, eq_int_refl a))
]
