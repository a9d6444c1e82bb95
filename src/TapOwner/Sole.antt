-- ===== src/TapOwner/Sole.antt =====
-- tapowner.go: a pump that runs owns its device's name and stands in its lab's map.
use iolbox.Common.{
  ℕ, ◌≡◌, ◌≢◌, refl, sym, ap, ◌∙◌, inl, inr, Bool, true, false, ◌==◌, ==_iff, ==_refl, ==_ne,
  Bool-cases, if_lem, [], ◌∷◌, Option, none, some,
}
use mathlib.Core.Path.{subst}
use iolbox.Common.Texts.{Text, eq_text, eq_text-cases}
use iolbox.TapOwner.{
  LabBridge, Table, get, remove, World, is_blank, set_table, set_open, is_held_by, release_tap,
  is_entry, drop_entry, close_bridge, close_at, evict_tap_bridge,
}

pub get-remove_self : (k : Text) (m : Table) → get k (remove k m) ≡ none
unfolding get remove
get-remove_self k [] = refl
get-remove_self k ((j, v) ∷ m) = elim (Bool-cases (eq_text j k)) [
  | inl e ↦ rw e (get-remove_self k m)
  | inr e ↦ rw (e, e) (get-remove_self k m)
]

pub get-remove_other : (k j : Text) (m : Table) → k ≢ j → get k (remove j m) ≡ get k m
unfolding get remove
get-remove_other k j [] h = refl
get-remove_other k j ((i, v) ∷ m) h = elim (eq_text-cases i j) [
  | inl (e, p) ↦ elim (eq_text-cases i k) [
    | inl (f, q) ↦ absurd (h (sym q ∙ p))
    | inr (f, q) ↦ rw (e, f) (get-remove_other k j m h)
  ]
  | inr (e, p) ↦
      rw e
        (elim (Bool-cases (eq_text i k)) [ inl f ↦ rw f | inr f ↦ rw f (get-remove_other k j m h) ])
]

set_open-true :
    (is_open : ℕ → Bool) (b k : ℕ)
    → set_open is_open b false k ≡ true
    → (is_open k ≡ true) × (k ≢ b)
set_open-true is_open b k = elim (Bool-cases (b == k)) [
  | inl e ↦ rw e (λ o. absurd (cc o))
  | inr e ↦ rw e (λ o. (o, λ p. absurd (cc (e, p, ==_refl b))))
]

is_entry-some : (o : Option ℕ) (b : ℕ) → is_entry o b ≡ true → o ≡ some b
is_entry-some none b h = cc h
is_entry-some (some v) b h = ap some ((==_iff v b).0 h)

module _ (bridges : ℕ → LabBridge) where
  -- A bridge owns the name of its device, for the lab in whose map it stands.
  unfoldable pub Held : World → ℕ → Type 0
  Held w k =
      (is_blank (bridges k).tap_name ≡ false)
      × ((lab : ℕ) × (w.owners (bridges k).tap_name ≡ some (record { lab = lab; bridge = k }))
          × (get (bridges k).netio_path (w.tap_bridges lab) ≡ some k))

  unfoldable pub Owned : World → Type 0
  Owned w = (k : ℕ) → w.is_open k ≡ true → Held w k

  -- The same, but for one bridge.
  unfoldable pub OwnedBut : World → ℕ → Type 0
  OwnedBut w b = (k : ℕ) → w.is_open k ≡ true → k ≢ b → Held w k

  pub OwnedBut-of_Owned : (w : World) (b : ℕ) → Owned w → OwnedBut w b
  unfolding Owned OwnedBut
  OwnedBut-of_Owned w b h k o n = h k o

  release_tap-other :
      (w : World) (name : Text) (b k : ℕ) (t : Text) (lab : ℕ)
      → k ≢ b
      → w.owners t ≡ some (record { lab = lab; bridge = k })
      → (release_tap w name b).owners t ≡ some (record { lab = lab; bridge = k })
  unfolding release_tap
  release_tap-other w name b k t lab n e = elim (Bool-cases (is_blank name)) [
    | inl blank ↦ rw blank e
    | inr full ↦ rw full (elim (eq_text-cases name t) [
      | inl (same, p) ↦
          let kept : is_held_by (w.owners name) b ≡ false = rw (p, e) (==_ne k b n) in rw kept e
      | inr (differs, p) ↦ elim (Bool-cases (is_held_by (w.owners name) b)) [
        | inl held ↦ rw (held, differs) e
        | inr free ↦ rw free e
      ]
    ])
  ]

  release_tap-tables :
      (w : World) (name : Text) (b : ℕ) → (release_tap w name b).tap_bridges ≡ w.tap_bridges
  unfolding release_tap
  release_tap-tables w name b = elim (Bool-cases (is_blank name)) [
    | inl blank ↦ rw blank
    | inr full ↦ rw full (elim (Bool-cases (is_held_by (w.owners name) b)) [
      | inl held ↦ rw held
      | inr free ↦ rw free
    ])
  ]

  release_tap-open : (w : World) (name : Text) (b : ℕ) → (release_tap w name b).is_open ≡ w.is_open
  unfolding release_tap
  release_tap-open w name b = elim (Bool-cases (is_blank name)) [
    | inl blank ↦ rw blank
    | inr full ↦ rw full (elim (Bool-cases (is_held_by (w.owners name) b)) [
      | inl held ↦ rw held
      | inr free ↦ rw free
    ])
  ]

  -- A pump that runs after a close ran before it, and is not the one closed.
  pub close_bridge-open :
      (w : World) (b k : ℕ)
      → (close_bridge bridges w b).is_open k ≡ true
      → (w.is_open k ≡ true) × (k ≢ b)
  unfolding close_bridge
  close_bridge-open w b k o =
      let (was, n) = set_open-true (release_tap w (bridges b).tap_name b).is_open b k o in
      (sym (ap (λ (f : ℕ → Bool). f k) (release_tap-open w (bridges b).tap_name b)) ∙ was, n)

  pub close_bridge-tables :
      (w : World) (b : ℕ) → (close_bridge bridges w b).tap_bridges ≡ w.tap_bridges
  unfolding close_bridge
  close_bridge-tables w b = release_tap-tables w (bridges b).tap_name b

  pub close_bridge-Owned : (w : World) (b : ℕ) → OwnedBut w b → Owned (close_bridge bridges w b)
  unfolding Owned OwnedBut Held
  close_bridge-Owned w b h k o =
      let (was, n) = close_bridge-open w b k o in
      let (full, (lab, owner, entry)) = h k was n in
      let tables =
        ap (λ (t : ℕ → Table). get (bridges k).netio_path (t lab)) (close_bridge-tables w b) in
      (
        full,
        (
          lab,
          unfold close_bridge in
              (release_tap-other w (bridges b).tap_name b k (bridges k).tap_name lab n owner),
          tables ∙ entry,
        ),
      )

  -- A map without an entry of `b`.
  abbrev pub without : World → ℕ → Text → World
  without w lab path = record w {
    tap_bridges = set_table w.tap_bridges lab (remove path (w.tap_bridges lab));
  }

  without-OwnedBut :
      (w : World) (lab : ℕ) (path : Text) (b : ℕ)
      → get path (w.tap_bridges lab) ≡ some b
      → OwnedBut w b
      → OwnedBut (without w lab path) b
  unfolding OwnedBut Held
  without-OwnedBut w lab path b e h k o n =
      let (full, (home, owner, entry)) = h k o n in
      (
        full,
        (
          home,
          owner,
          elim (Bool-cases (lab == home)) [
            | inl same ↦ rw same (
                let p = (==_iff lab home).0 same in
                let here : get (bridges k).netio_path (w.tap_bridges lab) ≡ some k =
                  subst (λ (l : ℕ). get (bridges k).netio_path (w.tap_bridges l) ≡ some k) (sym p)
                    entry in
                get-remove_other (bridges k).netio_path path (w.tap_bridges lab)
                  (λ q. n (cc (q, e, here)))
                ∙ here)
            | inr other ↦ rw other entry
          ],
        ),
      )

  pub drop_entry-OwnedBut :
      (w : World) (lab : ℕ) (path : Text) (b : ℕ)
      → OwnedBut w b
      → OwnedBut (drop_entry w lab path b) b
  unfolding drop_entry
  drop_entry-OwnedBut w lab path b h =
      elim (Bool-cases (is_entry (get path (w.tap_bridges lab)) b)) [
        | inl entry ↦ rw entry (without-OwnedBut w lab path b (is_entry-some _ b entry) h)
        | inr none_there ↦ rw none_there h
      ]

  close_bridge-shut : (w : World) (b : ℕ) → (close_bridge bridges w b).is_open b ≡ false
  unfolding close_bridge
  close_bridge-shut w b = rw (==_refl b)

  pub close_at-Owned :
      (w : World) (lab : ℕ) (path : Text) (b : ℕ)
      → get path (w.tap_bridges lab) ≡ some b
      → Owned w
      → Owned (close_at bridges w lab path b)
  unfolding close_at Owned
  close_at-Owned w lab path b e h k o =
      let closed = close_bridge bridges w b in
      let all = close_bridge-Owned w b (OwnedBut-of_Owned w b h) in
      let entry : get path (closed.tap_bridges lab) ≡ some b =
        ap (λ (t : ℕ → Table). get path (t lab)) (close_bridge-tables w b) ∙ e in
      unfold OwnedBut in
      without-OwnedBut closed lab path b entry (OwnedBut-of_Owned closed b all) k o
        (λ p. cc (p, o, close_bridge-shut w b))

  -- The end of a pump keeps the owners.
  pub evict_tap_bridge-Owned :
      (w : World) (lab : ℕ) (path : Text) (b : ℕ)
      → Owned w
      → Owned (evict_tap_bridge bridges w lab path b)
  unfolding evict_tap_bridge
  evict_tap_bridge-Owned w lab path b h =
      if_lem Owned (is_entry (get path (w.tap_bridges lab)) b)
        (λ _.
          close_bridge-Owned (drop_entry w lab path b) b
            (drop_entry-OwnedBut w lab path b (OwnedBut-of_Owned w b h)))
        (λ _. h)
