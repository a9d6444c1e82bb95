-- ===== src/Lab/Validate/Steps.antt =====
-- validate.go: what a chain of checks accepts is what each of its checks accepts.
use iolbox.Common.{◌≡◌, refl, ◌↔◌, Bool, true, false}
use iolbox.Lab.Validate.{Checked, ok, refused, Violation, ◌>>=◌, ◌>>◌, unless}

abbrev pub Accepts : Checked (Unit {0}) → Type 0 → Type 0
Accepts m P = (m ≡ ok tt) ↔ P

pub unless-Accepts :
    (b : Bool) (e : Violation) {P : Type 0} → (b ≡ true) ↔ P → Accepts (unless b e) P
unless-Accepts true e h = (λ _. h.0 refl, λ _. refl)
unless-Accepts false e h = (λ k. absurd (cc k), λ p. cc (h.1 p))

pub ok-Accepts : Accepts (ok tt) (Unit {0})
ok-Accepts = (λ _. tt, λ _. refl)

pub refused-Accepts : (e : Violation) → Accepts (refused e) ⊥
refused-Accepts e = (λ h. cc h, λ h. absurd h)

pub >>-Accepts :
    (m k : Checked (Unit {0})) {P Q : Type 0} → Accepts m P → Accepts k Q → Accepts (m >> k) (P × Q)
>>-Accepts (ok u) k p q = (λ h. (p.0 refl, q.0 h), λ h. q.1 h.1)
>>-Accepts (refused e) k p q = (λ h. absurd (cc h), λ h. absurd (cc (p.1 h.0)))

pub Accepts-iff : (m : Checked (Unit {0})) {P Q : Type 0} → P ↔ Q → Accepts m P → Accepts m Q
Accepts-iff m e h = (λ k. e.0 (h.0 k), λ q. h.1 (e.1 q))

-- A chain that is not refused has a first value and a result of the rest.
module _ {κ ℓ} {A : Type κ} {B : Type ℓ} where
  pub >>=-ok :
      (first : Checked A) (next : A → Checked B) {result : B}
      → (first >>= next) ≡ ok result
      → (value : A) × (first ≡ ok value) × (next value ≡ ok result)
  >>=-ok (refused violation) next h = cc h
  >>=-ok (ok value) next h = (value, refl, h)

-- A step that returns `c` if the property holds, and fails if it does not.
abbrev pub Yields {ℓ} : {A : Type ℓ} → Checked A → Type 0 → A → Type ℓ
Yields {A = A} m P c = ((c' : A) → m ≡ ok c' → P × (c' ≡ c)) × (P → m ≡ ok c)

pub ok-Yields {ℓ} : {A : Type ℓ} (c : A) → Yields (ok c) (Unit {0}) c
ok-Yields c = (λ c' h. (tt, cc h), λ _. refl)

pub refused-Yields {ℓ} : {A : Type ℓ} (e : Violation) (c : A) → Yields (refused e) ⊥ c
refused-Yields e c = (λ c' h. absurd (cc h), λ h. absurd h)

pub >>-Yields {ℓ} :
    {A : Type ℓ} (m : Checked (Unit {0})) (k : Checked A) {P Q : Type 0} {c : A}
    → Accepts m P
    → Yields k Q c
    → Yields (m >> k) (P × Q) c
>>-Yields (ok u) k p q = (λ c' h. let (a, e) = q.0 c' h in ((p.0 refl, a), e), λ h. q.1 h.1)
>>-Yields (refused e) k p q = (λ c' h. absurd (cc h), λ h. absurd (cc (p.1 h.0)))

pub Yields-iff {ℓ} :
    {A : Type ℓ} (m : Checked A) {P Q : Type 0} {c : A} → P ↔ Q → Yields m P c → Yields m Q c
Yields-iff m e h = (λ c' k. let (p, q) = h.0 c' k in (e.0 p, q), λ q. h.1 (e.1 q))
