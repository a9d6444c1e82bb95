-- ===== src/Extnet/Leaser/Distinct.antt =====
-- dhcp.go: addresses stay in the pool, and are distinct until the pool has been used up.
use iolbox.Common.{
  ℕ, suc, ◌+◌, ◌≤◌, ◌<◌, ◌≡◌, refl, inl, inr, ◌==◌, Bool-cases, Option-cases, List, [], ◌∷◌, Option,
  some, none, arith,
}
use iolbox.Extnet.Leaser.{Leaser, new_leaser, lease}
use iolbox.Extnet.Leaser.Bindings.{serve}

abbrev pub if_new : Option ℕ → ℕ → ℕ
if_new none n = suc n
if_new (some u) n = n

-- How many of the requests come from a client that is not known yet.
unfoldable pub newcomers : Leaser → List ℕ → ℕ
newcomers l [] = 0
newcomers l (mac ∷ macs) = if_new (l.by_mac mac) (newcomers (lease l mac).0 macs)

-- After `k` clients, as many as the pool of `start` to `end` has room for at most.
record IsFilled (start end k : ℕ) (l : Leaser) : Type 0 where
  same_base : l.base_u32 ≡ start
  same_end : l.end_u32 ≡ end
  cursor : start + k ≤ end → l.next ≡ start + k
  from : (m u : ℕ) → l.by_mac m ≡ some u → start ≤ u
  below : (m u : ℕ) → l.by_mac m ≡ some u → u < start + k
  apart : (m m' u : ℕ) → l.by_mac m ≡ some u → l.by_mac m' ≡ some u → m ≡ m'

new_leaser-IsFilled : (start end : ℕ) → IsFilled start end 0 (new_leaser start end)
unfolding new_leaser
new_leaser-IsFilled start end = record {
  same_base = refl;
  same_end = refl;
  cursor = λ h. omega arith;
  from = λ m u h. absurd cc;
  below = λ m u h. absurd cc;
  apart = λ m m' u h k. absurd cc;
}

lease_known :
    (start end k : ℕ) (l : Leaser) (mac u : ℕ)
    → l.by_mac mac ≡ some u
    → IsFilled start end k l
    → IsFilled start end k (lease l mac).0
unfolding lease
lease_known start end k l mac u h v = rw h v

lease_new :
    (start end k : ℕ) (l : Leaser) (mac : ℕ)
    → l.by_mac mac ≡ none
    → start + k ≤ end
    → IsFilled start end k l
    → IsFilled start end (suc k) (lease l mac).0
unfolding lease
lease_new start end k l mac h room v =
    let at_cursor = v.cursor room in
    rw h (record {
      same_base = v.same_base;
      same_end = v.same_end;
      cursor = λ more. ground (arith, v.same_end);
      from = λ m u e. elim (Bool-cases (m == mac)) [
        | inl d ↦ ground (arith, at_cursor)
        | inr d ↦ v.from m u (ground arith)
      ];
      below = λ m u e. elim (Bool-cases (m == mac)) [
        | inl d ↦ ground (arith, at_cursor)
        | inr d ↦ omega (arith, v.below m u (ground arith))
      ];
      apart = λ m m' u e e'. ground (arith, at_cursor, v.below m u, v.below m' u, v.apart m m' u);
    })

newcomers-new :
    (l : Leaser) (mac : ℕ) (macs : List ℕ)
    → l.by_mac mac ≡ none
    → newcomers l (mac ∷ macs) ≡ suc (newcomers (lease l mac).0 macs)
unfolding newcomers
newcomers-new l mac macs h = rw h

newcomers-known :
    (l : Leaser) (mac : ℕ) (macs : List ℕ) {u : ℕ}
    → l.by_mac mac ≡ some u
    → newcomers l (mac ∷ macs) ≡ newcomers (lease l mac).0 macs
unfolding newcomers
newcomers-known l mac macs h = rw h

serve-IsFilled :
    (start end k : ℕ) (l : Leaser) (macs : List ℕ)
    → start + (k + newcomers l macs) ≤ end + 1
    → IsFilled start end k l
    → (k' : ℕ) × (start + k' ≤ end + 1) × IsFilled start end k' (serve l macs)
unfolding serve
serve-IsFilled start end k l [] room v = (k, omega arith, v)
serve-IsFilled start end k l (mac ∷ macs) room v =
    let next = (lease l mac).0 in
    elim (Option-cases (l.by_mac mac)) [
      | inl e ↦
          let fewer : start + (suc k + newcomers next macs) ≤ end + 1 =
            omega (arith, room, newcomers-new l mac macs e) in
          serve-IsFilled start end (suc k) next macs fewer
            (lease_new start end k l mac e (omega arith) v)
      | inr (u, e) ↦
          serve-IsFilled start end k next macs (omega (arith, room, newcomers-known l mac macs e))
            (lease_known start end k l mac u e v)
    ]

-- While no more clients have asked than the pool has addresses, however often each has: every
-- address that is leased lies in the pool, and no two clients hold the same one.
pub serve_lem :
    (start end : ℕ) (macs : List ℕ)
    → start + newcomers (new_leaser start end) macs ≤ end + 1
    → let l = serve (new_leaser start end) macs in
      ((m u : ℕ) → l.by_mac m ≡ some u → (start ≤ u) × (u ≤ end))
      × ((m m' u : ℕ) → l.by_mac m ≡ some u → l.by_mac m' ≡ some u → m ≡ m')
serve_lem start end macs room =
    let empty = new_leaser-IsFilled start end in
    let (k, small, v) =
      serve-IsFilled start end 0 (new_leaser start end) macs (omega (arith, room)) empty in
    (λ m u h. (v.from m u h, omega (arith, v.below m u h, small)), v.apart)
