-- ===== src/TapOwner.antt =====
-- supervisor/internal/server/tapowner.go, bridgeplan.go and the loop of startFabric in fabric_linux.go:
-- who owns a kernel tap device. Labs and bridges are pointers, here numbers. A bridge's fields never
-- change, so they are a function of the pointer, `bridges`. `is_open` says that a bridge's pump holds
-- its device. The callers pass no nil lab or bridge. One opening of a tap, with the evictions before it,
-- is one step: two starts do not overlap here.
pub mod Sole
pub mod Evictions
pub mod Steps
mod Runs
use iolbox.Common.{
  ℕ, ◌+◌, ◌≡◌, Bool, true, false, not, ◌&&◌, ◌||◌, ◌==◌, if◌then◌else◌, List, [], ◌∷◌, map, Option,
  none, some,
}
use iolbox.Common.Texts.{Text, eq_text}

pub record LabBridge : Type 0 where
  pub netio_path : Text
  pub tap_name : Text

pub record TapClaim : Type 0 where
  pub lab : ℕ
  pub bridge : ℕ

-- A Go map from texts.
abbrev pub Table : Type 0
Table = List (Text × ℕ)

pub get : Text → Table → Option ℕ
get k [] = none
get k ((j, v) ∷ m) = if eq_text j k then some v else get k m

pub remove : Text → Table → Table
remove k [] = []
remove k ((j, v) ∷ m) = if eq_text j k then remove k m else (j, v) ∷ remove k m

-- `tapOwners`, the tapBridges of every lab, and which pumps run.
pub record World : Type 0 where
  pub owners : Text → Option TapClaim
  pub tap_bridges : ℕ → Table
  pub is_open : ℕ → Bool

abbrev pub is_blank : Text → Bool
is_blank [] = true
is_blank (c ∷ s) = false

abbrev pub set_owner : (Text → Option TapClaim) → Text → Option TapClaim → Text → Option TapClaim
set_owner owners name c k = if eq_text name k then c else owners k

abbrev pub set_table : (ℕ → Table) → ℕ → Table → ℕ → Table
set_table tables lab m k = if lab == k then m else tables k

-- `claimTap`, with the claim that it displaces.
displaced : Option TapClaim → ℕ → Option TapClaim
displaced none bridge = none
displaced (some prev) bridge = if prev.bridge == bridge then none else some prev

pub claim_tap : World → Text → ℕ → ℕ → World × Option TapClaim
unfolding displaced
claim_tap w name lab bridge = if is_blank name then (w, none) else (
  record w { owners = set_owner w.owners name (some (record { lab = lab; bridge = bridge })) },
  displaced (w.owners name) bridge,
)

abbrev pub is_held_by : Option TapClaim → ℕ → Bool
is_held_by none bridge = false
is_held_by (some c) bridge = c.bridge == bridge

pub release_tap : World → Text → ℕ → World
release_tap w name bridge =
    if is_blank name
    then w
    else if is_held_by (w.owners name) bridge
    then record w { owners = set_owner w.owners name none }
    else w

abbrev pub is_foreign : Option TapClaim → ℕ → Bool
is_foreign none lab = false
is_foreign (some c) lab = not (c.lab == lab)

pub tap_claimed_by_other_lab : World → Text → ℕ → Bool
tap_claimed_by_other_lab w name lab = not (is_blank name) && is_foreign (w.owners name) lab

abbrev pub is_entry : Option ℕ → ℕ → Bool
is_entry none b = false
is_entry (some v) b = v == b

-- `delete(lab.tapBridges, path)`, if the entry is still that bridge.
pub drop_entry : World → ℕ → Text → ℕ → World
unfolding get remove
drop_entry w lab path b =
    if is_entry (get path (w.tap_bridges lab)) b
    then record w { tap_bridges = set_table w.tap_bridges lab (remove path (w.tap_bridges lab)) }
    else w

abbrev pub keys_of : Table → List Text
keys_of = map (λ e. e.0)

abbrev pub set_open : (ℕ → Bool) → ℕ → Bool → ℕ → Bool
set_open is_open b v k = if b == k then v else is_open k

module _ (bridges : ℕ → LabBridge) where
  -- `labBridge.close`: the claim goes, and the pump ends.
  pub close_bridge : World → ℕ → World
  unfolding release_tap
  close_bridge w b =
      let w1 = release_tap w (bridges b).tap_name b in
      record w1 { is_open = set_open w1.is_open b false }

  evict_claim : World → Text → ℕ → Option TapClaim → World
  unfolding drop_entry close_bridge
  evict_claim w name lab none = w
  evict_claim w name lab (some c) =
      let w1 = record w { owners = set_owner w.owners name none } in
      let w2 = close_bridge (drop_entry w1 c.lab (bridges c.bridge).netio_path c.bridge) c.bridge in
      if c.lab == lab then w else w2

  pub evict_foreign_tap_claim : World → Text → ℕ → World
  unfolding evict_claim
  evict_foreign_tap_claim w name lab =
      if is_blank name then w else evict_claim w name lab (w.owners name)

  -- The end of a bridge's pump.
  pub evict_tap_bridge : World → ℕ → Text → ℕ → World
  unfolding drop_entry close_bridge
  evict_tap_bridge w lab path b =
      let w1 = close_bridge (drop_entry w lab path b) b in
      if is_entry (get path (w.tap_bridges lab)) b then w1 else w

  -- `_ = lb.close(); delete(ll.tapBridges, path)`
  pub close_at : World → ℕ → Text → ℕ → World
  unfolding close_bridge remove
  close_at w lab path b =
      let w1 = close_bridge w b in
      record w1 { tap_bridges = set_table w1.tap_bridges lab (remove path (w1.tap_bridges lab)) }

  close_if : World → ℕ → Text → Option ℕ → (Text → ℕ → Bool) → World
  unfolding close_at
  close_if w lab path none test = w
  close_if w lab path (some b) test = if test path b then close_at w lab path b else w

  -- `for path, lb := range ll.tapBridges`: the keys there are at the start, with their entries then.
  pub close_entries : World → ℕ → List Text → (Text → ℕ → Bool) → World
  unfolding close_if get
  close_entries w lab [] test = w
  close_entries w lab (path ∷ keys) test =
      close_entries (close_if w lab path (get path (w.tap_bridges lab)) test) lab keys test

  -- A ghost: a pump on the device of bridge `b` under another path.
  abbrev pub is_ghost : ℕ → Text → ℕ → Bool
  is_ghost b path ghost = not (
      eq_text path (bridges b).netio_path
      || not (eq_text (bridges ghost).tap_name (bridges b).tap_name))

  -- The evictions before the device of bridge `b` is opened.
  pub evict_before : World → ℕ → ℕ → World
  unfolding close_entries close_if evict_foreign_tap_claim
  evict_before w lab b =
      let t = bridges b in
      let w1 = close_if w lab t.netio_path (get t.netio_path (w.tap_bridges lab)) (λ _ _. true) in
      let w2 = close_entries w1 lab (keys_of (w1.tap_bridges lab)) (is_ghost b) in
      evict_foreign_tap_claim w2 t.tap_name lab

  -- The new bridge, in the lab's map and as the owner of its device.
  pub add_bridge : World → ℕ → ℕ → World
  unfolding claim_tap remove
  add_bridge w lab b =
      let t = bridges b in
      let w1 = record w {
        tap_bridges =
            set_table w.tap_bridges lab
              ((t.netio_path, b) ∷ remove t.netio_path (w.tap_bridges lab));
        is_open = set_open w.is_open b true;
      } in
      (claim_tap w1 t.tap_name lab b).0

  -- `hasPump && lb.tapName == t.tapName && tapDeviceExists(t.tapName)`
  abbrev pub is_running : Option ℕ → ℕ → Bool → Bool
  is_running none b exists = false
  is_running (some lb) b exists = eq_text (bridges lb).tap_name (bridges b).tap_name && exists

  -- One round of the loop for the device of bridge `b`; `made` says whether EnsureTap and NewTap succeed.
  pub open_tap : World → ℕ → ℕ → Bool → Bool → World
  unfolding evict_before add_bridge get
  open_tap w lab b exists made =
      let w1 = evict_before w lab b in
      let w2 = if made then add_bridge w1 lab b else w1 in
      if is_running (get (bridges b).netio_path (w.tap_bridges lab)) b exists then w else w2

  -- The sweep of the paths that are no longer live.
  pub sweep : World → ℕ → (Text → Bool) → World
  unfolding close_entries
  sweep w lab live = close_entries w lab (keys_of (w.tap_bridges lab)) (λ path _. not (live path))
