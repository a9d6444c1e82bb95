-- ===== src/Node/ConsoleHub/Output/Runs.antt =====
-- console_hub.go: a student who joins late, beside a client that reads nothing.
use iolbox.Common.{ℕ, ◌≡◌, ◌⊎◌, refl, true, false, List, [], ◌∷◌, ◌++◌, some, keep_last}
use mathlib.Core.List.{flatten}
use iolbox.Common.Texts.{codes}
use iolbox.Node.ConsoleHub.{new_console_hub}
use iolbox.Node.ConsoleHub.Output.{subscribe, replay_ring_size, enqueue_client, append_ring}
use iolbox.Node.ConsoleHub.Output.Events.{
  Event, arrived, taken, joined, left, arrived_bytes, run, step,
}
use iolbox.Node.ConsoleHub.Output.Screens.{title, subscribe_shown}

abbrev earlier : List Event
earlier = arrived (codes "R1>") ∷ joined true true ∷ arrived (codes "en") ∷ []

abbrev afterwards : List Event
afterwards =
    taken 1 ∷ arrived (codes "able") ∷ left 0 ∷ taken 1 ∷ taken 1 ∷ arrived (codes "#") ∷ []

subscribe_shown_example :
    let h = (run 0 (new_console_hub (codes "R1")) earlier).0 in
    let s = subscribe h true in
    let w = run h.made s.0 afterwards in
    (s.1 ≡ some h.made)
    × (missed : List ℕ) × (w.1 ++ (flatten (w.0.client h.made).out ++ missed)
        ≡ (title (codes "R1") ++ keep_last replay_ring_size (arrived_bytes earlier))
          ++ arrived_bytes afterwards)
    × ((w.0.clients h.made ≡ false) ⊎ (missed ≡ []))
unfolding run step new_console_hub enqueue_client append_ring
subscribe_shown_example = subscribe_shown (codes "R1") earlier afterwards refl

-- The late student has taken the title, the replay and the first new chunk.
late_student :
    let h = (run 0 (new_console_hub (codes "R1")) earlier).0 in
    (run h.made (subscribe h true).0 afterwards).1 ≡ title (codes "R1") ++ codes "R1>enable"
unfolding run step subscribe new_console_hub enqueue_client append_ring
late_student = refl
