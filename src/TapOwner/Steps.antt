-- ===== src/TapOwner/Steps.antt =====
-- tapowner.go, bridgeplan.go and startFabric: any starts, ends of pumps and sweeps, in any order.
use iolbox.Common.{
  ℕ, ◌≡◌, ◌≢◌, sym, ap, ◌∙◌, ◌⊎◌, inl, inr, Bool, true, false, not, ◌&&◌, ◌==◌, ==_iff, ==_refl,
  Bool-cases, if_lem, ◌∷◌, Option, none, some, arith,
}
use mathlib.Core.Path.{subst}
use iolbox.Common.Texts.{Text, eq_text-cases, eq_text_refl}
use iolbox.TapOwner.{
  LabBridge, TapClaim, Table, get, remove, World, is_blank, set_owner, set_table, set_open,
  claim_tap, is_running, evict_before, add_bridge, open_tap, evict_tap_bridge, sweep, keys_of,
  tap_claimed_by_other_lab, is_foreign,
}
use iolbox.TapOwner.Sole.{Held, Owned, evict_tap_bridge-Owned, get-remove_other}
use iolbox.TapOwner.Evictions.{
  evict_before-Owned, evict_before-vacant, evict_before-path, close_entries-Owned,
}

==_cases : (b k : ℕ) → (b ≡ k) ⊎ ((b == k) ≡ false)
==_cases b k = elim (Bool-cases (b == k)) [ inl e ↦ inl ((==_iff b k).0 e) | inr e ↦ inr e ]

lab_eq : {c : TapClaim} {lab k : ℕ} → some c ≡ some (record { lab = lab; bridge = k }) → c.lab ≡ lab
lab_eq e = cc e

not_foreign : (a b : ℕ) → not (a == b) ≡ false → a ≡ b
not_foreign a b h = ground arith

own_lab :
    (blank : Bool) (o : Option TapClaim) (home k lab : ℕ)
    → blank ≡ false
    → o ≡ some (record { lab = home; bridge = k })
    → (not blank && is_foreign o lab) ≡ false
    → home ≡ lab
own_lab true o home k lab b e h = cc b
own_lab false none home k lab b e h = cc e
own_lab false (some c) home k lab b e h =
    let same : c.lab ≡ home = lab_eq e in sym same ∙ not_foreign c.lab lab h

bridge_eq :
    {lab lab' j k : ℕ}
    → ◌≡◌ {A = Option TapClaim}
        (some (record { lab = lab; bridge = j }))
        (some (record { lab = lab'; bridge = k }))
    → j ≡ k
bridge_eq e = cc e

module _ (bridges : ℕ → LabBridge) where
  added : World → ℕ → ℕ → World
  added w lab b = record {
    owners = set_owner w.owners (bridges b).tap_name (some (record { lab = lab; bridge = b }));
    tap_bridges =
        set_table w.tap_bridges lab
          (((bridges b).netio_path, b) ∷ remove (bridges b).netio_path (w.tap_bridges lab));
    is_open = set_open w.is_open b true;
  }

  add_bridge-added :
      (w : World) (lab b : ℕ)
      → is_blank (bridges b).tap_name ≡ false
      → add_bridge bridges w lab b ≡ added w lab b
  unfolding add_bridge claim_tap added
  add_bridge-added w lab b full = rw (add_bridge, claim_tap, full)

  added-new :
      (w : World) (lab b : ℕ)
      → is_blank (bridges b).tap_name ≡ false
      → Held bridges (added w lab b) b
  unfolding added Held get
  added-new w lab b full = (
    full,
    (
      lab,
      rw (eq_text_refl (bridges b).tap_name),
      rw (==_refl lab, get, eq_text_refl (bridges b).netio_path),
    ),
  )

  -- The entry of another bridge, at another path.
  added-entry :
      (w : World) (lab b k home : ℕ)
      → get (bridges b).netio_path (w.tap_bridges lab) ≡ none
      → get (bridges k).netio_path (w.tap_bridges home) ≡ some k
      → get (bridges k).netio_path ((added w lab b).tap_bridges home) ≡ some k
  unfolding added get
  added-entry w lab b k home free entry =
      if_lem (λ (m : Table). get (bridges k).netio_path m ≡ some k) (lab == home)
        (λ same.
          let here : get (bridges k).netio_path (w.tap_bridges lab) ≡ some k =
            subst (λ (l : ℕ). get (bridges k).netio_path (w.tap_bridges l) ≡ some k)
              (sym ((==_iff lab home).0 same)) entry in
          elim (eq_text-cases (bridges b).netio_path (bridges k).netio_path) [
            | inl (_, p) ↦ absurd (cc (free, here, p))
            | inr (e, p) ↦
                rw (get, e)
                  (get-remove_other (bridges k).netio_path (bridges b).netio_path
                      (w.tap_bridges lab) (λ q. p (sym q))
                    ∙ here)
          ])
        (λ _. entry)

  added-old :
      (w : World) (lab b k : ℕ)
      → (bridges k).tap_name ≢ (bridges b).tap_name
      → get (bridges b).netio_path (w.tap_bridges lab) ≡ none
      → Held bridges w k
      → Held bridges (added w lab b) k
  unfolding added Held
  added-old w lab b k n free (full, (home, owner, entry)) = (
    full,
    (
      home,
      elim (eq_text-cases (bridges b).tap_name (bridges k).tap_name) [
        | inl (_, p) ↦ absurd (n (sym p))
        | inr (e, p) ↦ rw e owner
      ],
      added-entry w lab b k home free entry,
    ),
  )

  added-open :
      (w : World) (lab b k : ℕ) → (b == k) ≡ false → (added w lab b).is_open k ≡ w.is_open k
  unfolding added
  added-open w lab b k e = rw e

  add_bridge-Owned :
      (w : World) (lab b : ℕ)
      → is_blank (bridges b).tap_name ≡ false
      → ((k : ℕ) → w.is_open k ≡ true → (bridges k).tap_name ≢ (bridges b).tap_name)
      → get (bridges b).netio_path (w.tap_bridges lab) ≡ none
      → Owned bridges w
      → Owned bridges (add_bridge bridges w lab b)
  unfolding Owned
  add_bridge-Owned w lab b full vacant free h =
      subst (λ (x : World). (k : ℕ) → x.is_open k ≡ true → Held bridges x k)
        (sym (add_bridge-added w lab b full)) (λ k. all k (==_cases b k))
    where
      all :
          (k : ℕ)
          → ((b ≡ k) ⊎ ((b == k) ≡ false))
          → (added w lab b).is_open k ≡ true
          → Held bridges (added w lab b) k
      all k (inl p) o = subst (Held bridges (added w lab b)) p (added-new w lab b full)
      all k (inr e) o =
          let was : w.is_open k ≡ true = sym (added-open w lab b k e) ∙ o in
          added-old w lab b k (vacant k was) free (h k was)

  -- What happens to the owners: a new bridge is a new pointer, so its pump does not run yet, and no
  -- device has an empty name.
  pub data Step (w : World) : World → Type 0 where
    started :
        (lab b : ℕ) (exists made : Bool)
        → w.is_open b ≡ false
        → is_blank (bridges b).tap_name ≡ false
        → Step w (open_tap bridges w lab b exists made)
    ended : (lab : ℕ) (path : Text) (b : ℕ) → Step w (evict_tap_bridge bridges w lab path b)
    swept : (lab : ℕ) (live : Text → Bool) → Step w (sweep bridges w lab live)

  pub data Reached : World → Type 0 where
    nothing_open : (w : World) → ((k : ℕ) → w.is_open k ≡ false) → Reached w
    reached : (w w' : World) → Reached w → Step w w' → Reached w'

  open_tap-Owned :
      (w : World) (lab b : ℕ) (exists made : Bool)
      → is_blank (bridges b).tap_name ≡ false
      → Owned bridges w
      → Owned bridges (open_tap bridges w lab b exists made)
  unfolding open_tap
  open_tap-Owned w lab b exists made full h =
      let ready = evict_before bridges w lab b in
      let owned = evict_before-Owned bridges w lab b h in
      if_lem (Owned bridges)
        (is_running bridges (get (bridges b).netio_path (w.tap_bridges lab)) b exists) (λ _. h)
        (λ _.
          if_lem (Owned bridges) made
            (λ _.
              add_bridge-Owned ready lab b full
                (λ k o. evict_before-vacant bridges w lab b k h full o)
                (evict_before-path bridges w lab b) owned)
            (λ _. owned))

  Step-Owned : (w w' : World) → Step w w' → Owned bridges w → Owned bridges w'
  unfolding sweep
  Step-Owned w _ (started lab b exists made fresh full) h =
      open_tap-Owned w lab b exists made full h
  Step-Owned w _ (ended lab path b) h = evict_tap_bridge-Owned bridges w lab path b h
  Step-Owned w _ (swept lab live) h =
      close_entries-Owned bridges (keys_of (w.tap_bridges lab)) w lab (λ path _. not (live path)) h

  Reached-Owned : (w : World) → Reached w → Owned bridges w
  unfolding Owned
  Reached-Owned w (nothing_open _ h) = λ k o. absurd (cc (h k, o))
  Reached-Owned w (reached v _ r s) = Step-Owned v w s (Reached-Owned v r)

  Held-sole :
      (w : World) (j k : ℕ)
      → Held bridges w j
      → Held bridges w k
      → (bridges j).tap_name ≡ (bridges k).tap_name
      → j ≡ k
  unfolding Held
  Held-sole w j k (_, (lab, owner, _)) (_, (lab', owner', _)) same =
      let claims : some (record { lab = lab; bridge = j })
          ≡ some (record { lab = lab'; bridge = k }) =
        sym owner ∙ ap w.owners same ∙ owner' in
      bridge_eq claims

  Held-own :
      (w : World) (k lab : ℕ)
      → Held bridges w k
      → tap_claimed_by_other_lab w (bridges k).tap_name lab ≡ false
      → get (bridges k).netio_path (w.tap_bridges lab) ≡ some k
  unfolding Held tap_claimed_by_other_lab
  Held-own w k lab (full, (home, owner, entry)) h =
      subst (λ (l : ℕ). get (bridges k).netio_path (w.tap_bridges l) ≡ some k)
        (own_lab (is_blank (bridges k).tap_name) (w.owners (bridges k).tap_name) home k lab full
          owner h)
        entry

  -- However the labs of a process start their fabrics, pumps end and stale paths are swept, from no pump
  -- at all: two pumps that run on the device of a bridge are one; after the evictions before that bridge
  -- is opened, by any lab, no bridge of the device runs; and either another lab than the asking one has
  -- the claim on the device, or the pump stands in the asking lab's own map.
  pub sole_pump :
      (w : World) (lab b i j k : ℕ)
      → Reached w
      → w.is_open j ≡ true
      → w.is_open k ≡ true
      → (bridges i).tap_name ≡ (bridges b).tap_name
      → (bridges j).tap_name ≡ (bridges b).tap_name
      → (bridges k).tap_name ≡ (bridges b).tap_name
      → (j ≡ k)
        × ((evict_before bridges w lab b).is_open i ≡ false)
        × ((tap_claimed_by_other_lab w (bridges k).tap_name lab ≡ true)
            ⊎ (get (bridges k).netio_path (w.tap_bridges lab) ≡ some k))
  unfolding Owned Held
  sole_pump w lab b i j k r oj ok si sj sk =
      let owned = Reached-Owned w r in
      let full : is_blank (bridges b).tap_name ≡ false = sym (ap is_blank sk) ∙ (owned k ok).0 in
      (
        Held-sole w j k (owned j oj) (owned k ok) (sj ∙ sym sk),
        elim (Bool-cases ((evict_before bridges w lab b).is_open i)) [
          | inl o ↦ absurd (evict_before-vacant bridges w lab b i owned full o si)
          | inr e ↦ e
        ],
        elim (Bool-cases (tap_claimed_by_other_lab w (bridges k).tap_name lab)) [
          | inl e ↦ inl e
          | inr e ↦ inr (Held-own w k lab (owned k ok) e)
        ],
      )
