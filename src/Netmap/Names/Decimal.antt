-- ===== src/Netmap/Names/Decimal.antt =====
-- netmap.go: the decimal form of a number, and its way back through `Atoi`.
use iolbox.Common.{
  ℕ, zero, suc, ◌+◌, ◌-◌, ◌/◌, ◌%◌, ◌^◌, ◌≤◌, ◌<◌, ◌≡◌, refl, sym, ==_ne, ap, ge→ltb, ◌∙◌, [], ◌∷◌,
  some, All, arith, ltb, Bool-cases, inl, inr,
}
use iolbox.Common.Ints.{pos}
use iolbox.Common.Texts.{Text}
use iolbox.Netmap.Names.{is_digit, digits_value, signed_value, atoi, decimal_on, decimal}

abbrev pub IsDigit : ℕ → Type 0
IsDigit c = (48 ≤ c) × (c < 58)

digits_value-decimal_on :
    (fuel n : ℕ) (tail : Text)
    → n < fuel
    → digits_value 0 (decimal_on fuel n tail) ≡ digits_value n tail
unfolding digits_value decimal_on is_digit
digits_value-decimal_on zero n tail h = absurd (omega (arith, h))
digits_value-decimal_on (suc fuel) n tail h =
    ground (arith, digits_value-decimal_on fuel (n / 10) ((48 + n % 10) ∷ tail))

-- A text of digits, one at least.
pub record IsDecimal (s : Text) : Type 0 where
  pub first : ℕ
  pub rest : Text
  pub shape : s ≡ first ∷ rest
  pub first_digit : IsDigit first
  pub rest_digits : All IsDigit rest

decimal_on-IsDecimal :
    (fuel n : ℕ) (tail : Text) → n < fuel → All IsDigit tail → IsDecimal (decimal_on fuel n tail)
unfolding decimal_on
decimal_on-IsDecimal zero n tail h k = absurd (omega (arith, h))
decimal_on-IsDecimal (suc fuel) n tail h k = elim (Bool-cases (ltb n 10)) [
  | inl e ↦ rw e (record {
    first = 48 + n;
    rest = tail;
    shape = refl;
    first_digit = ground arith;
    rest_digits = k;
  })
  | inr e ↦ rw e (
      decimal_on-IsDecimal fuel (n / 10) ((48 + n % 10) ∷ tail) (ground arith)
        ((omega arith, omega arith), k))
]

pub decimal-IsDecimal : (n : ℕ) → IsDecimal (decimal n)
unfolding decimal
decimal-IsDecimal n = decimal_on-IsDecimal (suc n) n [] (omega arith) tt

digits_value-decimal : (n : ℕ) → digits_value 0 (decimal n) ≡ some n
unfolding decimal digits_value
digits_value-decimal n = digits_value-decimal_on (suc n) n [] (omega arith)

signed_value_digits :
    (max c : ℕ) (s : Text) (n : ℕ)
    → digits_value 0 (c ∷ s) ≡ some n
    → n ≤ max
    → signed_value max (c ∷ s) ≡ some n
unfolding signed_value
signed_value_digits max c s n e h = rw (e, ge→ltb max n h)

atoi_digits :
    (c : ℕ) (s : Text) (n : ℕ)
    → IsDigit c
    → digits_value 0 (c ∷ s) ≡ some n
    → n < 2 ^ 63
    → atoi (c ∷ s) ≡ some (pos n)
unfolding atoi
atoi_digits c s n h e k =
    let v = signed_value_digits (2 ^ 63 - 1) c s n e (omega arith) in
    let minus = ==_ne c 45 (omega arith) in
    let plus = ==_ne c 43 (omega arith) in rw (minus, plus, v)

pub atoi-decimal : (n : ℕ) → n < 2 ^ 63 → atoi (decimal n) ≡ some (pos n)
atoi-decimal n h =
    let d = decimal-IsDecimal n in
    ap atoi d.shape
    ∙ atoi_digits d.first d.rest n d.first_digit
        (ap (digits_value 0) (sym d.shape) ∙ digits_value-decimal n) h
