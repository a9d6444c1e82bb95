-- ===== src/Common/Texts.antt =====
-- Texts as lists of code points.
use Prim.Native.Nat.{ℕ}
use Prim.Native.Char.{code}
use Prim.Native.String.{String}
use mathlib.Core.Path.{◌≡◌, refl}
use mathlib.Core.Logic.{◌⊎◌, inl, inr, ◌≢◌}
use mathlib.Core.Bool.{Bool, true, false, ◌&&◌}
use mathlib.Core.List.{List, [], ◌∷◌}
use native.Mathlib.Omega.{arith}
use iolbox.Common.Tests.{◌==◌, Bool-cases}

abbrev pub Text : Type 0
Text = List ℕ

-- A literal's code points.
abbrev pub codes : String → Text
codes String.[] = []
codes (String.◌∷◌ c s) = code c ∷ codes s

abbrev pub eq_text : Text → Text → Bool
eq_text [] [] = true
eq_text (a ∷ s) (b ∷ t) = a == b && eq_text s t
eq_text _ _ = false

pub eq_text_refl : (s : Text) → eq_text s s ≡ true
eq_text_refl [] = refl
eq_text_refl (a ∷ s) = ground (arith, eq_text_refl s)

pub eq_text-eq : (s t : Text) → eq_text s t ≡ true → s ≡ t
eq_text-eq [] [] h = refl
eq_text-eq [] (b ∷ t) h = cc
eq_text-eq (a ∷ s) [] h = cc
eq_text-eq (a ∷ s) (b ∷ t) h = ground (arith, eq_text-eq s t)

pub eq_text-cases :
    (s t : Text) → ((eq_text s t ≡ true) × (s ≡ t)) ⊎ ((eq_text s t ≡ false) × (s ≢ t))
eq_text-cases s t = elim (Bool-cases (eq_text s t)) [
  | inl e ↦ inl (e, eq_text-eq s t e)
  | inr e ↦ inr (e, λ p. cc (e, p, eq_text_refl s))
]
