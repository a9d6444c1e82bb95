-- ===== src/Dirstat/Runs.antt =====
-- dirstat.go: two endpoints, a learnt address, and a conflict over it.
use iolbox.Common.{ℕ, ◌≤◌, ◌≡◌, ◌≢◌, Bool, true, List, [], ◌∷◌, some, length}
use iolbox.Relay.Classify.{Label, Subtype}
use iolbox.Dirstat.{AttribState, new_classifier, entry_for, max_conflict, valid_source_mac}
use iolbox.Dirstat.Traces.{Event, run, run_attribution}

abbrev two_devs : List (ℕ × Bool)
two_devs = (0, true) ∷ (1, true) ∷ []

abbrev pc : ℕ
pc = 0x020000000001

abbrev moved : List Event
moved =
    Event.observed 0 pc 1000
    ∷ Event.counted 0 Label.arp Subtype.request
    ∷ Event.observed 1 pc 2000
    ∷ Event.looked 3000
    ∷ []

run_attribution_example :
    ((m : ℕ)
      → (entry_for (run (new_classifier two_devs) moved) 0).mac ≡ some m
      → (entry_for (run (new_classifier two_devs) moved) 1).mac ≢ some m)
    × ((ep : ℕ)
        → ep ≤ 1
        → (entry_for (run (new_classifier two_devs) moved) ep).state ≡ AttribState.attrib_single
        → (m : ℕ) × ((entry_for (run (new_classifier two_devs) moved) ep).mac ≡ some m)
          × (valid_source_mac m ≡ true))
    × (length (run (new_classifier two_devs) moved).conflicts ≤ max_conflict)
run_attribution_example = run_attribution two_devs moved
