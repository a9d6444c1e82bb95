-- ===== src/Common/Xor.antt =====
-- Exclusive or on bytes, by a table of every pair.
use Prim.Native.Nat.{ℕ, zero, suc, ◌<◌, bit_xor}
use mathlib.Core.Path.{◌≡◌, refl}
use mathlib.Core.Bool.{Bool, true, ◌&&◌}
use native.Mathlib.Omega.{arith}
use iolbox.Common.Tests.{◌==◌, ==_iff}

-- The table of one row: what the test gives for the first `n` entries.
row_passes : (ℕ → Bool) → ℕ → Bool
row_passes test zero = true
row_passes test (suc last) = row_passes test last && test last

entry_passes :
    (test : ℕ → Bool) (entry n : ℕ) → entry < n → row_passes test n ≡ true → test entry ≡ true
unfolding row_passes
entry_passes test entry zero inside passed = absurd (omega (arith, inside))
entry_passes test entry (suc last) inside passed = ground (arith, entry_passes test entry last)

undone : ℕ → ℕ → Bool
undone k x = bit_xor (bit_xor x k) k == x

table : row_passes (λ k. row_passes (undone k) 256) 256 ≡ true
unfolding row_passes undone
table = refl

-- Two exclusive ors with one key byte undo one another.
pub xor_twice : (x k : ℕ) → x < 256 → k < 256 → bit_xor (bit_xor x k) k ≡ x
unfolding undone
xor_twice x k hx hk =
    let row = entry_passes (λ k'. row_passes (undone k') 256) k 256 hk table in
    (==_iff _ x).0 (entry_passes (undone k) x 256 hx row)
