-- ===== src/Dirstat/Invariant.antt =====
-- dirstat.go: what holds of the attribution after every observation and every expiry.
use iolbox.Common.{
  ℕ, zero, suc, ◌-◌, ◌≤◌, ◌≡◌, ◌⊎◌, inl, inr, true, false, Bool-cases, length, arith,
}
use iolbox.Dirstat.{
  Classifier, conflict_has, expire, max_conflict, owns, observe_source, observe_valid,
  ensure_endpoint, set_candidate, when_owned, when_conflicted, when_new, valid_source_mac,
}
use iolbox.Dirstat.Conflicts.{length-add_conflict, conflict_has-expire, length-expire}

-- No address belongs to both endpoints, an endpoint's address is in no conflict and is a real source
-- address, and the list of conflicts is bounded.
pub record IsValid (c : Classifier) : Type 0 where
  pub apart : (m : ℕ) → owns c 0 m ≡ true → owns c 1 m ≡ false
  pub free : (ep m : ℕ) → ep ≤ 1 → owns c ep m ≡ true → conflict_has m c.conflicts ≡ false
  pub real : (ep m : ℕ) → ep ≤ 1 → owns c ep m ≡ true → valid_source_mac m ≡ true
  pub bounded : length c.conflicts ≤ max_conflict

-- An endpoint that was not known owns nothing.
owns-ensure_endpoint : (c : Classifier) (ep e m : ℕ) → owns (ensure_endpoint c ep) e m ≡ owns c e m
unfolding ensure_endpoint set_candidate
owns-ensure_endpoint c ep e m = ground arith

ensure_endpoint_conflicts :
    (c : Classifier) (ep : ℕ) → (ensure_endpoint c ep).conflicts ≡ c.conflicts
unfolding ensure_endpoint set_candidate
ensure_endpoint_conflicts c ep = ground arith

pub ensure_endpoint-IsValid : (c : Classifier) (ep : ℕ) → IsValid c → IsValid (ensure_endpoint c ep)
ensure_endpoint-IsValid c ep v = record {
  apart = λ m h.
      ground (arith, v.apart m, owns-ensure_endpoint c ep 0 m, owns-ensure_endpoint c ep 1 m);
  free = λ e m l h.
      ground (arith, v.free e m l, owns-ensure_endpoint c ep e m, ensure_endpoint_conflicts c ep);
  real = λ e m l h. ground (arith, v.real e m l, owns-ensure_endpoint c ep e m);
  bounded = ground (arith, v.bounded, ensure_endpoint_conflicts c ep);
}

-- What the endpoint and the other one own after an observation.
record After (c c' : Classifier) (ep mac : ℕ) : Type 0 where
  other_kept : (m : ℕ) → owns c' (1 - ep) m ≡ true → owns c (1 - ep) m ≡ true
  own : (m : ℕ) → owns c' ep m ≡ true → (owns c ep m ≡ true) ⊎ (m ≡ mac)
  not_both : owns c' ep mac ≡ true → owns c (1 - ep) mac ≡ false
  conflicts_kept :
      (c'.conflicts ≡ c.conflicts)
      ⊎ ((m : ℕ) → (owns c' ep m ≡ false) × (owns c' (1 - ep) m ≡ false))
  bounded : length c.conflicts ≤ max_conflict → length c'.conflicts ≤ max_conflict
  fresh : owns c' ep mac ≡ true → owns c ep mac ≡ false → conflict_has mac c'.conflicts ≡ false

observe_valid_zero : (c : Classifier) (mac now : ℕ) → After c (observe_valid c 0 mac now) 0 mac
unfolding observe_valid set_candidate when_owned when_conflicted when_new
observe_valid_zero c mac now = record {
  other_kept = λ m h. ground arith;
  own = λ m h. ground arith;
  not_both = λ h. ground arith;
  conflicts_kept = elim (Bool-cases (owns c 1 mac)) [
    | inl e ↦ inr (λ m. (ground arith, ground arith))
    | inr e ↦ inl (ground arith)
  ];
  bounded = λ h. ground (arith, length-add_conflict mac now c.conflicts h);
  fresh = λ h k. ground arith;
}

observe_valid_one : (c : Classifier) (mac now : ℕ) → After c (observe_valid c 1 mac now) 1 mac
unfolding observe_valid set_candidate when_owned when_conflicted when_new
observe_valid_one c mac now = record {
  other_kept = λ m h. ground arith;
  own = λ m h. ground arith;
  not_both = λ h. ground arith;
  conflicts_kept = elim (Bool-cases (owns c 0 mac)) [
    | inl e ↦ inr (λ m. (ground arith, ground arith))
    | inr e ↦ inl (ground arith)
  ];
  bounded = λ h. ground (arith, length-add_conflict mac now c.conflicts h);
  fresh = λ h k. ground arith;
}

module _ (c c' : Classifier) (ep mac : ℕ) (in_range : ep ≤ 1) (valid : valid_source_mac mac ≡ true)
    (v : IsValid c) (a : After c c' ep mac) where
  free_own : (m : ℕ) → owns c' ep m ≡ true → conflict_has m c'.conflicts ≡ false
  free_own m h = elim a.conflicts_kept [
    | inl k ↦ elim (a.own m h) [
      | inl o ↦ rw k (v.free ep m in_range o)
      | inr e ↦ elim (Bool-cases (owns c ep mac)) [
        | inl o ↦ rw (k, e) (v.free ep mac in_range o)
        | inr o ↦ rw e (a.fresh (rw e at h) o)
      ]
    ]
    | inr nobody ↦ absurd (ground (arith, (nobody m).0))
  ]

  free_other : (m : ℕ) → owns c' (1 - ep) m ≡ true → conflict_has m c'.conflicts ≡ false
  free_other m h = elim a.conflicts_kept [
    | inl k ↦ rw k (v.free (1 - ep) m (omega arith) (a.other_kept m h))
    | inr nobody ↦ absurd (ground (arith, (nobody m).1))
  ]

  real_own : (m : ℕ) → owns c' ep m ≡ true → valid_source_mac m ≡ true
  real_own m h = elim (a.own m h) [ inl o ↦ v.real ep m in_range o | inr e ↦ rw e valid ]

  real_other : (m : ℕ) → owns c' (1 - ep) m ≡ true → valid_source_mac m ≡ true
  real_other m h = v.real (1 - ep) m (omega arith) (a.other_kept m h)

-- A property of both endpoints, from that of each.
both_endpoints {ℓ} : (P : ℕ → Type ℓ) → P 0 → P 1 → (e : ℕ) → e ≤ 1 → P e
both_endpoints P p q zero l = p
both_endpoints P p q (suc zero) l = q
both_endpoints P p q (suc (suc e)) l = absurd (omega arith)

After-IsValid_zero :
    (c c' : Classifier) (mac : ℕ)
    → valid_source_mac mac ≡ true
    → IsValid c
    → After c c' 0 mac
    → IsValid c'
After-IsValid_zero c c' mac real v a = record {
  apart = λ m h. ground (arith, a.other_kept m, a.own m h, v.apart m, a.not_both);
  free = λ e m l.
      both_endpoints (λ e. owns c' e m ≡ true → conflict_has m c'.conflicts ≡ false)
        (free_own c c' 0 mac (omega arith) real v a m)
        (free_other c c' 0 mac (omega arith) real v a m) e l;
  real = λ e m l.
      both_endpoints (λ e. owns c' e m ≡ true → valid_source_mac m ≡ true)
        (real_own c c' 0 mac (omega arith) real v a m)
        (real_other c c' 0 mac (omega arith) real v a m) e l;
  bounded = a.bounded v.bounded;
}

After-IsValid_one :
    (c c' : Classifier) (mac : ℕ)
    → valid_source_mac mac ≡ true
    → IsValid c
    → After c c' 1 mac
    → IsValid c'
After-IsValid_one c c' mac real v a = record {
  apart = λ m h. elim (Bool-cases (owns c' 1 m)) [
    | inl o ↦ absurd (ground (arith, a.other_kept m h, a.own m o, v.apart m, a.not_both))
    | inr o ↦ o
  ];
  free = λ e m l.
      both_endpoints (λ e. owns c' e m ≡ true → conflict_has m c'.conflicts ≡ false)
        (free_other c c' 1 mac (omega arith) real v a m)
        (free_own c c' 1 mac (omega arith) real v a m) e l;
  real = λ e m l.
      both_endpoints (λ e. owns c' e m ≡ true → valid_source_mac m ≡ true)
        (real_other c c' 1 mac (omega arith) real v a m)
        (real_own c c' 1 mac (omega arith) real v a m) e l;
  bounded = a.bounded v.bounded;
}

-- An observation on any endpoint, of any address at any time, keeps the attribution valid.
pub observe_source-IsValid :
    (c : Classifier) (ep mac now : ℕ) → IsValid c → IsValid (observe_source c ep mac now)
unfolding observe_source
observe_source-IsValid c zero mac now v = elim (Bool-cases (valid_source_mac mac)) [
  | inl e ↦
      rw e (
        After-IsValid_zero _ _ mac e (ensure_endpoint-IsValid c 0 v) (observe_valid_zero _ mac now))
  | inr e ↦ rw e v
]
observe_source-IsValid c (suc zero) mac now v = elim (Bool-cases (valid_source_mac mac)) [
  | inl e ↦
      rw e
        (After-IsValid_one _ _ mac e (ensure_endpoint-IsValid c 1 v) (observe_valid_one _ mac now))
  | inr e ↦ rw e v
]
observe_source-IsValid c (suc (suc ep)) mac now v = ground arith

owns-expire : (c : Classifier) (now e m : ℕ) → owns (expire c now) e m ≡ true → owns c e m ≡ true
unfolding expire
owns-expire c now e m h = ground arith

-- An expiry, at any time, keeps the attribution valid.
pub expire-IsValid : (c : Classifier) (now : ℕ) → IsValid c → IsValid (expire c now)
expire-IsValid c now v = record {
  apart = λ m h. elim (Bool-cases (owns (expire c now) 1 m)) [
    | inl o ↦ absurd (ground (arith, owns-expire c now 0 m h, owns-expire c now 1 m o, v.apart m))
    | inr o ↦ o
  ];
  free = λ e m l h.
      unfold expire in
      conflict_has-expire m now c.conflicts (v.free e m l (owns-expire c now e m h));
  real = λ e m l h. v.real e m l (owns-expire c now e m h);
  bounded = unfold expire in (omega (arith, length-expire now c.conflicts, v.bounded));
}
