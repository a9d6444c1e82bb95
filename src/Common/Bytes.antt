-- ===== src/Common/Bytes.antt =====
-- Bytes of fixed-width integers, and writes into a buffer. A byte is a number below 256, `byte(v)`
-- is `v % 256`, and `uint16(a)<<8 | uint16(b)` of two bytes is `a * 256 + b`, since the bits do not
-- overlap. Go's panic on a write past the end has no place here: every write in the modelled code is
-- inside a buffer that was made for it.
use iolbox.Common.Lists.{length, replicate}
use Prim.Native.Nat.{ℕ, zero, suc, ◌+◌, ◌*◌, ◌/◌, ◌%◌, ◌<◌}
use mathlib.Core.Path.{◌≡◌, refl, ap}
use mathlib.Core.List.{List, [], ◌∷◌, ◌++◌}
use native.Mathlib.Omega.{arith}

abbrev pub IsByte : ℕ → Type 0
IsByte b = b < 256

abbrev pub be16 : ℕ → ℕ → ℕ
be16 hi lo = hi * 256 + lo

abbrev pub be32 : ℕ → ℕ → ℕ → ℕ → ℕ
be32 a b c d = ((a * 256 + b) * 256 + c) * 256 + d

abbrev pub bytes16 : ℕ → List ℕ
bytes16 v = (v / 256 % 256) ∷ (v % 256) ∷ []

abbrev pub bytes32 : ℕ → List ℕ
bytes32 v = (v / 16777216 % 256) ∷ (v / 65536 % 256) ∷ (v / 256 % 256) ∷ (v % 256) ∷ []

-- `copy(buf[off:], src)`: what does not fit is dropped.
abbrev pub copy_at : List ℕ → ℕ → List ℕ → List ℕ
copy_at [] off src = []
copy_at (x ∷ xs) zero [] = x ∷ xs
copy_at (x ∷ xs) zero (s ∷ ss) = s ∷ copy_at xs zero ss
copy_at (x ∷ xs) (suc off) src = x ∷ copy_at xs off src

-- binary.BigEndian.PutUint16(buf[off:], v), and PutUint32
abbrev pub put_be16 : List ℕ → ℕ → ℕ → List ℕ
put_be16 buf off v = copy_at buf off (bytes16 v)

abbrev pub put_be32 : List ℕ → ℕ → ℕ → List ℕ
put_be32 buf off v = copy_at buf off (bytes32 v)

-- `make([]byte, n)`
abbrev pub zeros : ℕ → List ℕ
zeros n = replicate n 0

pub replicate-add {ℓ} :
    {A : Type ℓ} (n m : ℕ) (a : A) → replicate (n + m) a ≡ replicate n a ++ replicate m a
replicate-add zero m a = let e : 0 + m ≡ m = omega arith in rw e
replicate-add (suc n) m a =
    let e : suc n + m ≡ suc (n + m) = omega arith in
    rw e (ap (λ (l : List _). a ∷ l) (replicate-add n m a))

pub copy_at-nil : (buf : List ℕ) → copy_at buf 0 [] ≡ buf
copy_at-nil [] = refl
copy_at-nil (x ∷ xs) = refl

-- A copy that fills the buffer replaces it.
pub copy_at-zeros : (src : List ℕ) → copy_at (zeros (length src)) 0 src ≡ src
copy_at-zeros [] = refl
copy_at-zeros (x ∷ xs) = ap (λ (l : List ℕ). x ∷ l) (copy_at-zeros xs)

pub bytes16_value : (v : ℕ) → v < 65536 → be16 (v / 256 % 256) (v % 256) ≡ v
bytes16_value v h = omega arith

pub bytes32_value :
    (v : ℕ)
    → v < 4294967296
    → be32 (v / 16777216 % 256) (v / 65536 % 256) (v / 256 % 256) (v % 256) ≡ v
bytes32_value v h = omega arith
