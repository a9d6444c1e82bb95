-- ===== src/Node/State/Runs.antt =====
-- state.go: a node that crashes while the call that makes it run has not told so yet.
use iolbox.Common.{◌≡◌, refl, List, [], ◌∷◌, ◌++◌}
use iolbox.Node.State.{State, new_machine, transition, call_back, can_transition, enter}
use iolbox.Node.State.Callbacks.{
  Walk, Event, asks, reports, run, after, InOrder, Reported, run-Reported, run-Walk,
}

abbrev race : List Event
race =
    asks State.starting
    ∷ reports 0
    ∷ asks State.running
    ∷ asks State.crashed
    ∷ reports 1
    ∷ reports 0
    ∷ []

-- The machine has crashed, and the last state told is running.
race_entered : (run new_machine race).entered ≡ State.starting ∷ State.crashed ∷ State.running ∷ []
unfolding run after new_machine transition call_back enter can_transition
race_entered = refl

race_state : (run new_machine race).state ≡ State.crashed
unfolding run after new_machine transition call_back enter can_transition
race_state = refl

run-Reported_example : Reported (run new_machine race)
run-Reported_example = run-Reported race

abbrev launched : List Event
launched =
    asks State.starting ∷ asks State.running ∷ reports 0 ∷ asks State.starting ∷ reports 0 ∷ []

run-Walk_example :
    let m = run new_machine launched in Walk State.stopped (m.entered ++ m.pending) m.state
unfolding InOrder
run-Walk_example = run-Walk launched (refl, (refl, tt))
