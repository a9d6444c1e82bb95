-- ===== src/Netmap/Pool.antt =====
-- netmap.go: the reserved pool hands out its lowest free ids, and no more than there are.
use iolbox.Common.{
  ℕ, zero, suc, ◌+◌, ◌-◌, ◌<◌, ◌≤◌, ◌≡◌, inl, inr, refl, sym, ◌∙◌, Bool, false, Bool-cases, ltb,
  if◌then◌else◌, List, [], ◌∷◌, ◌++◌, length, take, length-take, All, Option, some, none,
  append-nil, append_assoc, length-append, arith,
}
use iolbox.Netmap.{alloc_loop, alloc_pseudo_instances}

-- The ids from `id` on, of the `left` that there are, which are not real.
unfoldable pub free_ids : (ℕ → Bool) → ℕ → ℕ → List ℕ
free_ids real zero id = []
free_ids real (suc left) id =
    let rest = free_ids real left (id + 1) in if real id then rest else id ∷ rest

-- Strictly ascending from `low` on, and below `high`.
abbrev pub IsAscending : ℕ → ℕ → List ℕ → Type 0
IsAscending low high [] = Unit {0}
IsAscending low high (x ∷ xs) = (low ≤ x) × (x < high) × IsAscending (x + 1) high xs

take-nil : (n : ℕ) → take {A = ℕ} n [] ≡ []
take-nil zero = refl
take-nil (suc n) = refl

alloc_loop_lem :
    (left : ℕ) (real : ℕ → Bool) (n id : ℕ) (out : List ℕ)
    → length out ≤ n
    → alloc_loop left real n id out ≡ out ++ take (n - length out) (free_ids real left id)
unfolding alloc_loop free_ids
alloc_loop_lem zero real n id out l = rw (take-nil (n - length out)) (sym (append-nil out))
alloc_loop_lem (suc left) real n id out l = elim (Bool-cases (ltb (length out) n)) [
  | inr e ↦
      let none_left : n - length out ≡ 0 = ground arith in rw (e, none_left) (sym (append-nil out))
  | inl e ↦ elim (Bool-cases (real id)) [
    | inl r ↦ rw (e, r) (alloc_loop_lem left real n (id + 1) out l)
    | inr r ↦
        let longer : length (out ++ (id ∷ [])) ≡ length out + 1 = length-append out (id ∷ []) in
        let less : n - length out ≡ suc (n - (length out + 1)) = ground arith in
        rw (e, r, less)
          (alloc_loop_lem left real n (id + 1) (out ++ (id ∷ [])) (ground (arith, longer))
            ∙ rw longer (append_assoc out (id ∷ []) _))
  ]
]

IsAscending-weaken :
    (a b high : ℕ) (xs : List ℕ) → a ≤ b → IsAscending b high xs → IsAscending a high xs
IsAscending-weaken a b high [] l h = tt
IsAscending-weaken a b high (x ∷ xs) l h = (omega (arith, h.0), h.1, h.2)

free_ids-IsAscending :
    (real : ℕ → Bool) (left id : ℕ) → IsAscending id (id + left) (free_ids real left id)
unfolding free_ids
free_ids-IsAscending real zero id = tt
free_ids-IsAscending real (suc left) id =
    let e : id + suc left ≡ id + 1 + left = omega arith in
    let rest = free_ids-IsAscending real left (id + 1) in
    elim (Bool-cases (real id)) [
      | inl r ↦
          rw (r, e)
            (IsAscending-weaken id (id + 1) (id + 1 + left) (free_ids real left (id + 1))
              (omega arith) rest)
      | inr r ↦ rw (r, e) (omega arith, omega arith, rest)
    ]

free_ids_free : (real : ℕ → Bool) (left id : ℕ) → All (λ x. real x ≡ false) (free_ids real left id)
unfolding free_ids
free_ids_free real zero id = tt
free_ids_free real (suc left) id = elim (Bool-cases (real id)) [
  | inl r ↦ rw r (free_ids_free real left (id + 1))
  | inr r ↦ rw r (r, free_ids_free real left (id + 1))
]

take-All : (P : ℕ → Type 0) (n : ℕ) (xs : List ℕ) → All P xs → All P (take n xs)
take-All P zero xs h = tt
take-All P (suc n) [] h = tt
take-All P (suc n) (x ∷ xs) h = (h.0, take-All P n xs h.1)

take-IsAscending :
    (n low high : ℕ) (xs : List ℕ) → IsAscending low high xs → IsAscending low high (take n xs)
take-IsAscending zero low high xs h = tt
take-IsAscending (suc n) low high [] h = tt
take-IsAscending (suc n) low high (x ∷ xs) h = (h.0, h.1, take-IsAscending n (x + 1) high xs h.2)

-- The test behind the loop.
enough : (xs : List ℕ) (n : ℕ) → Option (List ℕ)
enough xs n = if ltb (length xs) n then none else some xs

enough-some : (xs out : List ℕ) (n : ℕ) → enough xs n ≡ some out → (xs ≡ out) × (n ≤ length xs)
unfolding enough
enough-some xs out n h = elim (Bool-cases (ltb (length xs) n)) [
  | inl e ↦ absurd (ground arith)
  | inr e ↦ (ground arith, ground arith)
]

enough-none : (xs : List ℕ) (n : ℕ) → enough xs n ≡ none → length xs < n
unfolding enough
enough-none xs n h = ground arith

alloc_pseudo_instances-free_ids :
    (real : ℕ → Bool) (n : ℕ)
    → alloc_pseudo_instances real n ≡ enough (take n (free_ids real 525 500)) n
unfolding alloc_pseudo_instances enough
alloc_pseudo_instances-free_ids real n =
    let all : n - length {A = ℕ} [] ≡ n = omega arith in
    let e : alloc_loop 525 real n 500 [] ≡ take n (free_ids real 525 500) =
      alloc_loop_lem 525 real n 500 [] (omega arith) ∙ rw all in
    rw e

-- `AllocPseudoInstances` gives the asked number of ids, each in 500..1024 and none a real instance,
-- in strictly ascending order; it fails only when fewer ids than that are free in the pool.
pub alloc_pseudo_instances_lem :
    (real : ℕ → Bool) (n : ℕ)
    → ((out : List ℕ)
        → alloc_pseudo_instances real n ≡ some out
        → (length out ≡ n) × IsAscending 500 1025 out × All (λ x. real x ≡ false) out)
      × (alloc_pseudo_instances real n ≡ none → length (free_ids real 525 500) < n)
alloc_pseudo_instances_lem real n =
    let free = free_ids real 525 500 in
    let e = alloc_pseudo_instances-free_ids real n in
    let taken = length-take n free in
    (
      λ out h.
          let found = enough-some (take n free) out n (sym e ∙ h) in
          let ascending = take-IsAscending n 500 1025 free (free_ids-IsAscending real 525 500) in
          let unused = take-All (λ x. real x ≡ false) n free (free_ids_free real 525 500) in
          rw (← found.0) (omega (arith, taken, found.1), ascending, unused),
      λ h. omega (arith, taken, enough-none (take n free) n (sym e ∙ h)),
    )
