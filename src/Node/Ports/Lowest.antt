-- ===== src/Node/Ports/Lowest.antt =====
-- ports.go: `Next` gives the lowest free port, and fails exactly when there is none.
use iolbox.Common.{
  ℕ, zero, suc, ◌+◌, ◌-◌, ◌<◌, ◌≤◌, ◌≡◌, inl, inr, refl, Bool, true, false, Bool-cases,
  Option-cases, ltb, ◌==◌, if◌then◌else◌, Option, some, none, arith,
}
use iolbox.Node.Ports.{PortAllocator, scan, next, release, mark, taken_now}

-- The lowest port from `lo` up to `hi` that is not taken.
pub record Lowest (taken : ℕ → Bool) (lo hi port : ℕ) : Type 0 where
  pub above : lo ≤ port
  pub below : port < hi
  pub free : taken port ≡ false
  pub least : (q : ℕ) → lo ≤ q → q < port → taken q ≡ true

scan-Lowest :
    (taken : ℕ → Bool) (n port r : ℕ) → scan taken n port ≡ some r → Lowest taken port (port + n) r
unfolding scan
scan-Lowest taken zero port r h = cc
scan-Lowest taken (suc n) port r h = elim (Bool-cases (taken port)) [
  | inl e ↦
      let l = scan-Lowest taken n (port + 1) r (ground arith) in
      record {
        above = omega (arith, l.above);
        below = omega (arith, l.below);
        free = l.free;
        least = λ q a b. elim (Bool-cases (q == port)) [
          | inl d ↦ ground arith
          | inr d ↦ l.least q (ground arith) b
        ];
      }
  | inr e ↦
      let same : port ≡ r = ground arith in
      record {
        above = omega (arith, same);
        below = omega (arith, same);
        free = rw (← same) e;
        least = λ q a b. absurd (omega (arith, same));
      }
]

scan-none :
    (taken : ℕ → Bool) (n port q : ℕ)
    → scan taken n port ≡ none
    → port ≤ q
    → q < port + n
    → taken q ≡ true
unfolding scan
scan-none taken zero port q h a b = absurd (omega arith)
scan-none taken (suc n) port q h a b = elim (Bool-cases (q == port)) [
  | inl d ↦ ground arith
  | inr d ↦ scan-none taken n (port + 1) q (ground arith) (ground arith) (omega arith)
]

-- What `taken_now` does with the outcome of the loop.
taken_now-some :
    (p : PortAllocator) (o : Option ℕ) (r : ℕ)
    → (taken_now p o).1 ≡ some r
    → (o ≡ some r) × ((q : ℕ) → (taken_now p o).0.taken q ≡ (if q == r then true else p.taken q))
unfolding taken_now
taken_now-some p none r h = cc
taken_now-some p (some x) r h = let same : x ≡ r = ground arith in (h, λ q. rw same)

taken_now-none :
    (p : PortAllocator) (o : Option ℕ)
    → (taken_now p o).1 ≡ none
    → (o ≡ none) × ((taken_now p o).0 ≡ p)
unfolding taken_now
taken_now-none p none h = (refl, refl)
taken_now-none p (some x) h = cc

-- For an allocator whose range is not reversed: a port that `Next` returns is the lowest one of the
-- range that was free, and from then on it alone is newly taken; and `Next` fails only when every
-- port of the range is taken, and changes nothing then.
pub next_lem :
    (p : PortAllocator)
    → p.base ≤ p.max_port
    → ((r : ℕ)
        → (next p).1 ≡ some r
        → Lowest p.taken p.base p.max_port r
          × ((q : ℕ) → (next p).0.taken q ≡ (if q == r then true else p.taken q)))
      × ((next p).1 ≡ none
          → ((next p).0 ≡ p) × ((q : ℕ) → p.base ≤ q → q < p.max_port → p.taken q ≡ true))
unfolding next
next_lem p range =
    let n = p.max_port - p.base in
    let width : p.base + n ≡ p.max_port = omega (arith, range) in
    (
      λ r h.
          let t = taken_now-some p (scan p.taken n p.base) r h in
          (rw (← width) (scan-Lowest p.taken n p.base r t.0), t.1),
      λ h.
          let t = taken_now-none p (scan p.taken n p.base) h in
          (t.1, λ q a b. scan-none p.taken n p.base q t.0 a (omega arith)),
    )

-- A released port of the range is free: the next allocation succeeds, with that port or a lower one.
pub next-release :
    (p : PortAllocator) (port : ℕ)
    → p.base ≤ port
    → port < p.max_port
    → (r : ℕ) × ((next (release p port)).1 ≡ some r) × (r ≤ port)
unfolding next release
next-release p port a b =
    let n = p.max_port - p.base in
    let taken = mark p.taken port false in
    elim (Option-cases (scan taken n p.base)) [
      | inl e ↦ absurd (ground (arith, scan-none taken n p.base port e a (omega arith)))
      | inr (r, e) ↦
          let l = scan-Lowest taken n p.base r e in
          (
            r,
            rw e (unfold taken_now in refl),
            elim (Bool-cases (ltb port r)) [
              | inl d ↦ absurd (ground (arith, l.least port a))
              | inr d ↦ ground arith
            ],
          )
    ]
