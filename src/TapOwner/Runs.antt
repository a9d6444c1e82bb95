-- ===== src/TapOwner/Runs.antt =====
-- tapowner.go: two labs whose first nodes have the same tap name.
use iolbox.Common.{ℕ, zero, suc, ◌≡◌, refl, true, false, ◌⊎◌, [], none, some}
use iolbox.Common.Texts.{codes}
use iolbox.TapOwner.{LabBridge, World, get, open_tap, evict_before, tap_claimed_by_other_lab}
use iolbox.TapOwner.Steps.{Reached, nothing_open, reached, started, sole_pump}

abbrev two_bridges : ℕ → LabBridge
two_bridges zero = record { netio_path = codes "netio0/500"; tap_name = codes "iol1_0" }
two_bridges (suc n) = record { netio_path = codes "netio0/501"; tap_name = codes "iol1_0" }

abbrev idle : World
idle = record { owners = λ _. none; tap_bridges = λ _. []; is_open = λ _. false }

abbrev first_lab : World
first_lab = open_tap two_bridges idle 0 0 false true

abbrev second_lab : World
second_lab = open_tap two_bridges first_lab 1 1 false true

first_evicted :
    (first_lab.is_open 0 ≡ true) × (second_lab.is_open 0 ≡ false) × (second_lab.is_open 1 ≡ true)
unfolding open_tap
first_evicted = (refl, refl, refl)

one_not_open : first_lab.is_open 1 ≡ false
unfolding open_tap
one_not_open = refl

second_lab-Reached : Reached two_bridges second_lab
second_lab-Reached =
    reached first_lab second_lab
      (reached idle first_lab (nothing_open idle (λ k. refl)) (started 0 0 false true refl refl))
      (started 1 1 false true one_not_open refl)

one_open : second_lab.is_open 1 ≡ true
one_open = first_evicted.2

sole_pump_example :
    (◌≡◌ {A = ℕ} 1 1)
    × ((evict_before two_bridges second_lab 0 0).is_open 0 ≡ false)
    × ((tap_claimed_by_other_lab second_lab (two_bridges 1).tap_name 0 ≡ true)
        ⊎ (get (two_bridges 1).netio_path (second_lab.tap_bridges 0) ≡ some 1))
sole_pump_example =
    sole_pump two_bridges second_lab 0 0 0 1 1 second_lab-Reached one_open one_open refl refl refl
