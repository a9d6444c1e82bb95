-- ===== src/TapOwner/Evictions.antt =====
-- tapowner.go and startFabric: the evictions before a device is opened leave no pump on it.
use iolbox.Common.{
  ℕ, ◌≡◌, ◌≢◌, refl, sym, ap, ◌∙◌, inl, inr, Bool, true, false, not, ◌||◌, ◌==◌, ==_iff, ==_refl,
  Option-cases, if_lem, List, [], ◌∷◌, Option, none, some,
}
use mathlib.Core.List.{Memᴰ}
use mathlib.Core.Path.{subst}
use iolbox.Common.Texts.{Text, eq_text, eq_text-cases, eq_text_refl}
use iolbox.TapOwner.{
  LabBridge, TapClaim, Table, get, remove, World, is_blank, set_owner, set_table, close_at,
  close_if, close_entries, keys_of, evict_claim, evict_foreign_tap_claim, drop_entry, close_bridge,
  release_tap, is_held_by, is_entry, is_ghost, evict_before,
}
use iolbox.TapOwner.Sole.{
  Held, Owned, OwnedBut, close_at-Owned, close_bridge-Owned, drop_entry-OwnedBut,
  close_bridge-tables, get-remove_self, get-remove_other,
}

ap_bridge :
    {k : ℕ} {lab : ℕ} {c : TapClaim}
    → some (record { lab = lab; bridge = k }) ≡ some c
    → k ≡ c.bridge
ap_bridge e = cc e

not_ghost : (a b : Bool) → not (a || not b) ≡ false → a ≡ false → b ≡ true → ⊥
not_ghost true b g e f = cc e
not_ghost false true g e f = cc g
not_ghost false false g e f = cc f

no_ghost :
    (path live name device : Text)
    → name ≡ device
    → not (eq_text path live || not (eq_text name device)) ≡ false
    → path ≢ live
    → ⊥
no_ghost path live name device same g n = elim (eq_text-cases path live) [
  | inl (e, p) ↦ n p
  | inr (e, p) ↦ elim (eq_text-cases name device) [
    | inl (f, q) ↦ not_ghost _ _ g e f
    | inr (f, q) ↦ q same
  ]
]

set_table_self :
    (tables : ℕ → Table) (lab : ℕ) (m : Table) (p : Text) (g : ℕ)
    → get p (set_table tables lab m lab) ≡ some g
    → get p m ≡ some g
set_table_self tables lab m p g = rw (==_refl lab) (λ h. h)

-- A claim that is there after a release was there before.
release_tap-claim :
    (w : World) (name : Text) (b : ℕ) (t : Text) (c : TapClaim)
    → (release_tap w name b).owners t ≡ some c
    → w.owners t ≡ some c
unfolding release_tap
release_tap-claim w name b t c =
    if_lem (λ (x : World). x.owners t ≡ some c → w.owners t ≡ some c) (is_blank name) (λ _ h. h)
      (λ _.
        if_lem (λ (x : World). x.owners t ≡ some c → w.owners t ≡ some c)
          (is_held_by (w.owners name) b)
          (λ _.
            if_lem (λ (x : Option TapClaim). x ≡ some c → w.owners t ≡ some c) (eq_text name t)
              (λ _ h. absurd (cc h)) (λ _ h. h))
          (λ _ h. h))

drop_entry-owners :
    (w : World) (lab : ℕ) (path : Text) (b : ℕ) → (drop_entry w lab path b).owners ≡ w.owners
unfolding drop_entry
drop_entry-owners w lab path b =
    if_lem (λ (x : World). x.owners ≡ w.owners) (is_entry (get path (w.tap_bridges lab)) b)
      (λ _. refl) (λ _. refl)

module _ (bridges : ℕ → LabBridge) where
  close_if-Owned :
      (w : World) (lab : ℕ) (path : Text) (o : Option ℕ) (test : Text → ℕ → Bool)
      → get path (w.tap_bridges lab) ≡ o
      → Owned bridges w
      → Owned bridges (close_if bridges w lab path o test)
  unfolding close_if
  close_if-Owned w lab path none test e h = h
  close_if-Owned w lab path (some b) test e h =
      if_lem (Owned bridges) (test path b) (λ _. close_at-Owned bridges w lab path b e h) (λ _. h)

  pub close_entries-Owned :
      (keys : List Text) (w : World) (lab : ℕ) (test : Text → ℕ → Bool)
      → Owned bridges w
      → Owned bridges (close_entries bridges w lab keys test)
  unfolding close_entries
  close_entries-Owned [] w lab test h = h
  close_entries-Owned (path ∷ keys) w lab test h =
      close_entries-Owned keys _ lab test
        (close_if-Owned w lab path (get path (w.tap_bridges lab)) test refl h)

  -- An entry that is left was there before.
  close_at-left :
      (w : World) (lab : ℕ) (path : Text) (b : ℕ) (p : Text) (g : ℕ)
      → get p ((close_at bridges w lab path b).tap_bridges lab) ≡ some g
      → (get p (w.tap_bridges lab) ≡ some g) × (p ≢ path)
  unfolding close_at
  close_at-left w lab path b p g e =
      let tables = ap (λ (t : ℕ → Table). t lab) (close_bridge-tables bridges w b) in
      let left : get p (remove path ((close_bridge bridges w b).tap_bridges lab)) ≡ some g =
        set_table_self (close_bridge bridges w b).tap_bridges lab _ p g e in
      elim (eq_text-cases p path) [
        | inl (_, same) ↦
            absurd
              (cc (left, same, get-remove_self path ((close_bridge bridges w b).tap_bridges lab)))
        | inr (_, other) ↦ (
          ap (get p) (sym tables)
              ∙ sym (get-remove_other p path ((close_bridge bridges w b).tap_bridges lab) other)
              ∙ left,
          other,
        )
      ]

  -- An entry that a step of the loop leaves was there before, and the test does not hold of it.
  close_if-left :
      (w : World) (lab : ℕ) (path : Text) (o : Option ℕ) (test : Text → ℕ → Bool) (p : Text) (g : ℕ)
      → get path (w.tap_bridges lab) ≡ o
      → get p ((close_if bridges w lab path o test).tap_bridges lab) ≡ some g
      → (get p (w.tap_bridges lab) ≡ some g) × (p ≡ path → test p g ≡ false)
  unfolding close_if
  close_if-left w lab path none test p g e = λ h. (h, λ q. absurd (cc (e, h, q)))
  close_if-left w lab path (some b) test p g e =
      if_lem
        (λ (x : World).
          get p (x.tap_bridges lab) ≡ some g
          → (get p (w.tap_bridges lab) ≡ some g) × (p ≡ path → test p g ≡ false))
        (test path b)
        (λ _ h. let (was, n) = close_at-left w lab path b p g h in (was, λ q. absurd (n q)))
        (λ t h. (h, λ q. cc (t, e, h, q)))

  close_entries-left :
      (keys : List Text) (w : World) (lab : ℕ) (test : Text → ℕ → Bool) (p : Text) (g : ℕ)
      → get p ((close_entries bridges w lab keys test).tap_bridges lab) ≡ some g
      → (get p (w.tap_bridges lab) ≡ some g) × (Memᴰ p keys → test p g ≡ false)
  unfolding close_entries
  close_entries-left [] w lab test p g h = (h, λ m. elim m [ ])
  close_entries-left (path ∷ keys) w lab test p g h =
      let w1 = close_if bridges w lab path (get path (w.tap_bridges lab)) test in
      let (then_there, rest) = close_entries-left keys w1 lab test p g h in
      let (was, first) =
        close_if-left w lab path (get path (w.tap_bridges lab)) test p g refl then_there in
      (was, λ m. elim m [ Memᴰ.head q ↦ first q | Memᴰ.tail n ↦ rest n ])

  get-key : (m : Table) (p : Text) (g : ℕ) → get p m ≡ some g → Memᴰ p (keys_of m)
  unfolding get
  get-key [] p g = λ h. absurd (cc h)
  get-key ((j, v) ∷ m) p g = elim (eq_text-cases j p) [
    | inl (e, q) ↦ λ _. Memᴰ.head (sym q)
    | inr (e, q) ↦ rw e (λ h. Memᴰ.tail (get-key m p g h))
  ]

  -- Without the claim on a name, every other bridge is held as before.
  unclaimed-OwnedBut :
      (w : World) (name : Text) (c : TapClaim)
      → w.owners name ≡ some c
      → Owned bridges w
      → OwnedBut bridges (record w { owners = set_owner w.owners name none }) c.bridge
  unfolding Owned OwnedBut Held
  unclaimed-OwnedBut w name c e h k o n =
      let (full, (lab, owner, entry)) = h k o in
      (
        full,
        (
          lab,
          elim (eq_text-cases name (bridges k).tap_name) [
            | inl (_, same) ↦
                let q : some (record { lab = lab; bridge = k }) ≡ some c =
                  sym owner ∙ ap w.owners (sym same) ∙ e in
                absurd (n (ap_bridge q))
            | inr (differs, _) ↦ rw differs owner
          ],
          entry,
        ),
      )

  evict_claim-Owned :
      (w : World) (name : Text) (lab : ℕ) (o : Option TapClaim)
      → w.owners name ≡ o
      → Owned bridges w
      → Owned bridges (evict_claim bridges w name lab o)
  unfolding evict_claim
  evict_claim-Owned w name lab none e h = h
  evict_claim-Owned w name lab (some c) e h =
      if_lem (Owned bridges) (c.lab == lab) (λ _. h)
        (λ _. close_bridge-Owned bridges _ c.bridge (
          drop_entry-OwnedBut bridges _ c.lab (bridges c.bridge).netio_path c.bridge
            (unclaimed-OwnedBut w name c e h)))

  evict_foreign_tap_claim-Owned :
      (w : World) (name : Text) (lab : ℕ)
      → Owned bridges w
      → Owned bridges (evict_foreign_tap_claim bridges w name lab)
  unfolding evict_foreign_tap_claim
  evict_foreign_tap_claim-Owned w name lab h =
      if_lem (Owned bridges) (is_blank name) (λ _. h)
        (λ _. evict_claim-Owned w name lab (w.owners name) refl h)

  set_owner-none :
      (owners : Text → Option TapClaim) (name : Text) (c : TapClaim)
      → set_owner owners name none name ≢ some c
  set_owner-none owners name c = rw (eq_text_refl name) (λ h. cc h)

  evicted-unclaimed :
      (w : World) (name : Text) (held c : TapClaim)
      → let w1 : World = record w { owners = set_owner w.owners name none } in
        (close_bridge bridges
              (drop_entry w1 held.lab (bridges held.bridge).netio_path held.bridge)
              held.bridge).owners
            name
          ≡ some c
        → ⊥
  unfolding close_bridge
  evicted-unclaimed w name held c h =
      let w1 : World = record w { owners = set_owner w.owners name none } in
      let path = (bridges held.bridge).netio_path in
      let w2 = drop_entry w1 held.lab path held.bridge in
      let before : w2.owners name ≡ some c =
        release_tap-claim w2 (bridges held.bridge).tap_name held.bridge name c h in
      set_owner-none w.owners name c (
        sym (
          ap (λ (f : Text → Option TapClaim). f name)
            (drop_entry-owners w1 held.lab path held.bridge))
        ∙ before)

  -- After the eviction of a foreign claim, a claim that is left on the name is the lab's own, and
  -- nothing was done.
  evict_claim-left :
      (w : World) (name : Text) (lab : ℕ) (o : Option TapClaim) (c : TapClaim)
      → w.owners name ≡ o
      → (evict_claim bridges w name lab o).owners name ≡ some c
      → (c.lab ≡ lab) × (evict_claim bridges w name lab o ≡ w)
  unfolding evict_claim
  evict_claim-left w name lab none c e = λ h. absurd (cc (e, h))
  evict_claim-left w name lab (some held) c e =
      if_lem (λ (x : World). x.owners name ≡ some c → (c.lab ≡ lab) × (x ≡ w)) (held.lab == lab)
        (λ own h.
          let same : held ≡ c = cc (e, h) in
          (ap (λ (x : TapClaim). x.lab) (sym same) ∙ (==_iff held.lab lab).0 own, refl))
        (λ _ h. absurd (evicted-unclaimed w name held c h))

  evict_foreign_tap_claim-left :
      (w : World) (name : Text) (lab : ℕ) (c : TapClaim)
      → is_blank name ≡ false
      → (evict_foreign_tap_claim bridges w name lab).owners name ≡ some c
      → (c.lab ≡ lab) × (evict_foreign_tap_claim bridges w name lab ≡ w)
  unfolding evict_foreign_tap_claim
  evict_foreign_tap_claim-left w name lab c full =
      if_lem (λ (x : World). x.owners name ≡ some c → (c.lab ≡ lab) × (x ≡ w)) (is_blank name)
        (λ blank. absurd (cc (blank, full)))
        (λ _. evict_claim-left w name lab (w.owners name) c refl)

  pub evict_before-Owned :
      (w : World) (lab b : ℕ) → Owned bridges w → Owned bridges (evict_before bridges w lab b)
  unfolding evict_before
  evict_before-Owned w lab b h =
      let w1 =
        close_if bridges w lab (bridges b).netio_path
          (get (bridges b).netio_path (w.tap_bridges lab)) (λ _ _. true) in
      let keys = keys_of (w1.tap_bridges lab) in
      evict_foreign_tap_claim-Owned (close_entries bridges w1 lab keys (is_ghost bridges b))
        (bridges b).tap_name lab
        (close_entries-Owned keys w1 lab (is_ghost bridges b) (
          close_if-Owned w lab (bridges b).netio_path
            (get (bridges b).netio_path (w.tap_bridges lab)) (λ _ _. true) refl h))

  -- The evictions leave no pump on the device that is to be opened.
  pub evict_before-vacant :
      (w : World) (lab b k : ℕ)
      → Owned bridges w
      → is_blank (bridges b).tap_name ≡ false
      → (evict_before bridges w lab b).is_open k ≡ true
      → (bridges k).tap_name ≢ (bridges b).tap_name
  unfolding evict_before Owned Held
  evict_before-vacant w lab b k h full o same =
      let t = bridges b in
      let o1 = get t.netio_path (w.tap_bridges lab) in
      let w1 = close_if bridges w lab t.netio_path o1 (λ _ _. true) in
      let keys = keys_of (w1.tap_bridges lab) in
      let w2 = close_entries bridges w1 lab keys (is_ghost bridges b) in
      let (_, (home, owner, entry)) = evict_before-Owned w lab b h k o in
      let claim : (evict_foreign_tap_claim bridges w2 t.tap_name lab).owners t.tap_name
          ≡ some (record { lab = home; bridge = k }) =
        ap (evict_foreign_tap_claim bridges w2 t.tap_name lab).owners (sym same) ∙ owner in
      let (own, unchanged) = evict_foreign_tap_claim-left w2 t.tap_name lab _ full claim in
      let path = (bridges k).netio_path in
      let here : get path (w2.tap_bridges lab) ≡ some k =
        ap (λ (x : World). get path (x.tap_bridges lab)) (sym unchanged)
        ∙ subst
            (λ (l : ℕ).
              get path ((evict_foreign_tap_claim bridges w2 t.tap_name lab).tap_bridges l) ≡ some k)
            own entry in
      let (e1, ghost) = close_entries-left keys w1 lab (is_ghost bridges b) path k here in
      let (_, stale) = close_if-left w lab t.netio_path o1 (λ _ _. true) path k refl e1 in
      no_ghost path t.netio_path (bridges k).tap_name t.tap_name same
        (ghost (get-key (w1.tap_bridges lab) path k e1)) (λ p. cc (stale p))

  drop_entry-left :
      (w : World) (home : ℕ) (path : Text) (b lab : ℕ) (p : Text) (g : ℕ)
      → get p ((drop_entry w home path b).tap_bridges lab) ≡ some g
      → get p (w.tap_bridges lab) ≡ some g
  unfolding drop_entry
  drop_entry-left w home path b lab p g =
      if_lem
        (λ (x : World). get p (x.tap_bridges lab) ≡ some g → get p (w.tap_bridges lab) ≡ some g)
        (is_entry (get path (w.tap_bridges home)) b)
        (λ _.
          if_lem (λ (m : Table). get p m ≡ some g → get p (w.tap_bridges lab) ≡ some g)
            (home == lab)
            (λ same h. elim (eq_text-cases p path) [
              | inl (_, q) ↦ absurd (cc (h, q, get-remove_self path (w.tap_bridges home)))
              | inr (_, other) ↦
                  ap (λ (l : ℕ). get p (w.tap_bridges l)) (sym ((==_iff home lab).0 same))
                  ∙ sym (get-remove_other p path (w.tap_bridges home) other)
                  ∙ h
            ])
            (λ _ h. h))
        (λ _ h. h)

  evict_claim-entries :
      (w : World) (name : Text) (lab : ℕ) (o : Option TapClaim) (p : Text) (g : ℕ)
      → get p ((evict_claim bridges w name lab o).tap_bridges lab) ≡ some g
      → get p (w.tap_bridges lab) ≡ some g
  unfolding evict_claim
  evict_claim-entries w name lab none p g = λ h. h
  evict_claim-entries w name lab (some c) p g =
      let w1 : World = record w { owners = set_owner w.owners name none } in
      let w2 = drop_entry w1 c.lab (bridges c.bridge).netio_path c.bridge in
      if_lem
        (λ (x : World). get p (x.tap_bridges lab) ≡ some g → get p (w.tap_bridges lab) ≡ some g)
        (c.lab == lab) (λ _ h. h)
        (λ _ h. drop_entry-left w1 c.lab (bridges c.bridge).netio_path c.bridge lab p g (
          ap (λ (t : ℕ → Table). get p (t lab)) (sym (close_bridge-tables bridges w2 c.bridge))
          ∙ h))

  foreign_entries :
      (w : World) (lab : ℕ) (p name : Text) (g : ℕ)
      → get p ((evict_foreign_tap_claim bridges w name lab).tap_bridges lab) ≡ some g
      → get p (w.tap_bridges lab) ≡ some g
  unfolding evict_foreign_tap_claim
  foreign_entries w lab p name g =
      if_lem
        (λ (x : World). get p (x.tap_bridges lab) ≡ some g → get p (w.tap_bridges lab) ≡ some g)
        (is_blank name) (λ _ h. h) (λ _ h. evict_claim-entries w name lab (w.owners name) p g h)

  -- Nor do they leave an entry under its path.
  pub evict_before-path :
      (w : World) (lab b : ℕ)
      → get (bridges b).netio_path ((evict_before bridges w lab b).tap_bridges lab) ≡ none
  unfolding evict_before evict_foreign_tap_claim
  evict_before-path w lab b =
      let t = bridges b in
      let o1 = get t.netio_path (w.tap_bridges lab) in
      let w1 = close_if bridges w lab t.netio_path o1 (λ _ _. true) in
      let keys = keys_of (w1.tap_bridges lab) in
      let w2 = close_entries bridges w1 lab keys (is_ghost bridges b) in
      let empty : (g : ℕ) → get t.netio_path (w2.tap_bridges lab) ≢ some g = λ g h.
        let (e1, _) = close_entries-left keys w1 lab (is_ghost bridges b) t.netio_path g h in
        let (_, stale) = close_if-left w lab t.netio_path o1 (λ _ _. true) t.netio_path g refl e1 in
        cc (stale refl) in
      elim (Option-cases
        (get t.netio_path ((evict_foreign_tap_claim bridges w2 t.tap_name lab).tap_bridges lab))) [
          | inl e ↦ e
          | inr (g, e) ↦ absurd (empty g (foreign_entries w2 lab t.netio_path t.tap_name g e))
        ]
