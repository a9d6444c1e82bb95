-- ===== src/Dirstat/Conflicts.antt =====
-- dirstat.go: the bounded list of conflicting addresses.
use iolbox.Common.{
  ℕ, zero, suc, ◌+◌, ◌<◌, ◌≤◌, ◌≡◌, ◌≢◌, refl, false, ◌||◌, ltb, ◌==◌, if◌then◌else◌, List, [], ◌∷◌,
  ◌++◌, length, length-append, arith,
}
use iolbox.Dirstat.{
  Conflict, conflict_has, touch, oldest_from, oldest_of, remove_at, add_conflict, expire_conflicts,
  max_conflict,
}

length-touch : (mac now : ℕ) (l : List Conflict) → length (touch mac now l) ≡ length l
unfolding touch
length-touch mac now [] = refl
length-touch mac now (x ∷ xs) = ground (arith, length-touch mac now xs)

conflict_has-touch :
    (m mac now : ℕ) (l : List Conflict) → conflict_has m (touch mac now l) ≡ conflict_has m l
unfolding touch conflict_has
conflict_has-touch m mac now [] = refl
conflict_has-touch m mac now (x ∷ xs) = ground (arith, conflict_has-touch m mac now xs)

conflict_has-append :
    (m : ℕ) (l : List Conflict) (x : Conflict)
    → conflict_has m (l ++ (x ∷ [])) ≡ (conflict_has m l || x.mac == m)
unfolding conflict_has
conflict_has-append m [] x = ground arith
conflict_has-append m (y ∷ l) x = ground (arith, conflict_has-append m l x)

conflict_has-remove_at :
    (m : ℕ) (l : List Conflict) (i : ℕ)
    → conflict_has m l ≡ false
    → conflict_has m (remove_at l i) ≡ false
unfolding conflict_has remove_at
conflict_has-remove_at m [] i h = refl
conflict_has-remove_at m (x ∷ xs) zero h = ground arith
conflict_has-remove_at m (x ∷ xs) (suc i) h = ground (arith, conflict_has-remove_at m xs i)

length-remove_at :
    (l : List Conflict) (i : ℕ) → i < length l → length (remove_at l i) + 1 ≡ length l
unfolding remove_at
length-remove_at [] i h = elim h [ ]
length-remove_at (x ∷ xs) zero h = omega arith
length-remove_at (x ∷ xs) (suc i) h = omega (arith, length-remove_at xs i (omega arith))

-- The loop's choice is an index that it has passed.
oldest_from-lt :
    (l : List Conflict) (i oldest seen : ℕ)
    → oldest < i
    → oldest_from i l oldest seen < i + length l
unfolding oldest_from
oldest_from-lt [] i oldest seen h = omega arith
oldest_from-lt (x ∷ xs) i oldest seen h = ground (
  arith,
  oldest_from-lt xs (i + 1) (if ltb x.last_seen seen then i else oldest)
      (if ltb x.last_seen seen then x.last_seen else seen),
)

oldest_of-lt : (l : List Conflict) → 0 < length l → oldest_of l < length l
unfolding oldest_of
oldest_of-lt [] h = elim h [ ]
oldest_of-lt (x ∷ xs) h = omega (arith, oldest_from-lt xs 1 0 x.last_seen (omega arith))

-- Only the address given can become a conflict.
pub conflict_has-add :
    (m mac now : ℕ) (l : List Conflict)
    → m ≢ mac
    → conflict_has m l ≡ false
    → conflict_has m (add_conflict mac now l) ≡ false
unfolding add_conflict
conflict_has-add m mac now l ne h =
    let x : Conflict = record { mac = mac; last_seen = now } in
    let longer = l ++ (x ∷ []) in
    let absent : conflict_has m longer ≡ false = ground (arith, conflict_has-append m l x) in
    ground (
      arith,
      conflict_has-touch m mac now l,
      absent,
      conflict_has-remove_at m longer (oldest_of longer) absent,
    )

pub length-add_conflict :
    (mac now : ℕ) (l : List Conflict)
    → length l ≤ max_conflict
    → length (add_conflict mac now l) ≤ max_conflict
unfolding add_conflict
length-add_conflict mac now l h =
    let x : Conflict = record { mac = mac; last_seen = now } in
    let longer = l ++ (x ∷ []) in
    let size : length longer ≡ length l + 1 = length-append l (x ∷ []) in
    ground (
      arith,
      length-touch mac now l,
      size,
      length-remove_at longer (oldest_of longer) (oldest_of-lt longer (omega (arith, size))),
    )

pub conflict_has-expire :
    (m now : ℕ) (l : List Conflict)
    → conflict_has m l ≡ false
    → conflict_has m (expire_conflicts now l) ≡ false
unfolding conflict_has expire_conflicts
conflict_has-expire m now [] h = refl
conflict_has-expire m now (x ∷ xs) h = ground (arith, conflict_has-expire m now xs)

pub length-expire : (now : ℕ) (l : List Conflict) → length (expire_conflicts now l) ≤ length l
unfolding expire_conflicts
length-expire now [] = omega arith
length-expire now (x ∷ xs) = ground (arith, length-expire now xs)
