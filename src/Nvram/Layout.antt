-- ===== src/Nvram/Layout.antt =====
-- nvram.go: the layout of an image, as one list of header bytes, text and what follows.
use iolbox.Common.{
  ℕ, ◌+◌, ◌-◌, ◌/◌, ◌%◌, ◌^◌, ◌≡◌, refl, sym, ap, ltb, ◌==◌, Bool-cases, inl, inr, List, [], ◌∷◌,
  ◌++◌, append-nil, Option, some, length, take, arith,
}
use iolbox.Common.Bytes.{
  bytes16, bytes32, copy_at, zeros, replicate-add, copy_at-nil, copy_at-zeros,
}
use iolbox.Nvram.{
  startup_section, private_section, startup_header_len, base_address, pad4, add_private,
  set_checksum, fold_carries, fold_fuel, sum_words, fit_size,
}

-- The bytes behind the checksum: the version, the addresses, the length, and zeros.
unfoldable pub behind_checksum : ℕ → ℕ → List ℕ → List ℕ
behind_checksum ios n rest =
    bytes16 ios
    ++ (bytes32 (base_address + startup_header_len)
        ++ (bytes32 ((base_address + startup_header_len + n % 2 ^ 32) % 2 ^ 32)
            ++ (bytes32 (n % 2 ^ 32)
                ++ (0 ∷ 0 ∷ 0 ∷ 0 ∷ 0 ∷ 0 ∷ 0 ∷ 0 ∷ 0 ∷ 0 ∷ 0 ∷ 0 ∷ 0 ∷ 0 ∷ 0 ∷ 0 ∷ rest))))

-- An image with the checksum bytes `c1` and `c2`.
unfoldable pub image : ℕ → ℕ → ℕ → ℕ → List ℕ → List ℕ
unfolding behind_checksum
image c1 c2 ios n rest = 0xab ∷ 0xcd ∷ 0 ∷ 1 ∷ c1 ∷ c2 ∷ behind_checksum ios n rest

pub startup_section-image :
    (startup : List ℕ) (ios : ℕ)
    → startup_section startup ios ≡ image 0 0 ios (length startup) startup
unfolding startup_section image
startup_section-image startup ios =
    rw (replicate-add {A = ℕ} 36 (length startup) 0)
      (ap (λ (l : List ℕ). image 0 0 ios (length startup) l) (copy_at-zeros startup))

pub image-append :
    (c1 c2 ios n : ℕ) (a b : List ℕ) → image c1 c2 ios n a ++ b ≡ image c1 c2 ios n (a ++ b)
unfolding image
image-append c1 c2 ios n a b = refl

pub length-image :
    (c1 c2 ios n : ℕ) (rest : List ℕ) → length (image c1 c2 ios n rest) ≡ 36 + length rest
unfolding image
length-image c1 c2 ios n rest = omega arith

-- Every later step adds bytes behind the text.
pub pad4_adds : (b : List ℕ) → (t : List ℕ) × (pad4 b ≡ b ++ t)
unfolding pad4
pad4_adds b = elim (Bool-cases (length b % 4 == 0)) [
  | inl e ↦ ([], rw (e, append-nil))
  | inr e ↦ (zeros (4 - length b % 4), rw e)
]

pub add_private_adds : (b p : List ℕ) → (t : List ℕ) × (add_private b p ≡ b ++ t)
unfolding add_private
add_private_adds b [] = ([], sym (append-nil b))
add_private_adds b (c ∷ cs) = (private_section (c ∷ cs), refl)

copy_at-larger : (b : List ℕ) (k : ℕ) → copy_at (zeros (length b + k)) 0 b ≡ b ++ zeros k
copy_at-larger b k = rw (replicate-add {A = ℕ} (length b) k 0) (fill b (zeros k))
  where
    fill : (c t : List ℕ) → copy_at (zeros (length c) ++ t) 0 c ≡ c ++ t
    fill [] t = copy_at-nil t
    fill (x ∷ xs) t = ap (λ (l : List ℕ). x ∷ l) (fill xs t)

pub fit_size_adds : (b : List ℕ) (size : ℕ) → (t : List ℕ) × (fit_size b size ≡ b ++ t)
unfolding fit_size
fit_size_adds b size = elim (Bool-cases (ltb (length b) size)) [
  | inl e ↦
      let k : length b + (size - length b) ≡ size = ground arith in
      (zeros (size - length b), rw e (rw k at (copy_at-larger b (size - length b))))
  | inr e ↦ ([], rw (e, append-nil))
]

-- The checksum of the section: of its header, with a zero in the field, and its text.
unfoldable pub checksum : ℕ → ℕ → List ℕ → ℕ → Option ℕ
checksum ios n rest end = fold_carries fold_fuel (sum_words (take end (image 0 0 ios n rest)) 0)

pub set_checksum-image :
    (ios n : ℕ) (rest : List ℕ) (end : ℕ) {s : ℕ}
    → checksum ios n rest end ≡ some s
    → set_checksum (image 0 0 ios n rest) end
      ≡ image ((65535 - s) / 256 % 256) ((65535 - s) % 256) ios n rest
unfolding set_checksum image checksum
set_checksum-image ios n rest end h = rw h
