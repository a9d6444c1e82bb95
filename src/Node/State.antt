-- ===== src/Node/State.antt =====
-- supervisor/internal/node/state.go: the state machine of a node's process. A call of To has two parts:
-- the transition, under the lock, and the callback, after the unlock. The calls between the two are kept
-- in `pending`, and what the callback was told in `entered`.
pub mod Callbacks
mod Runs
use iolbox.Common.{
  ℕ, Bool, true, false, if◌then◌else◌, List, [], ◌∷◌, ◌++◌, take, drop, length, Option, some, none,
}

pub data State : Type 0 where
  stopped starting running crashed : State

pub can_transition : State → State → Bool
can_transition State.stopped State.starting = true
can_transition State.starting State.running = true
can_transition State.starting State.crashed = true
can_transition State.starting State.stopped = true
can_transition State.running State.stopped = true
can_transition State.running State.crashed = true
can_transition State.crashed State.starting = true
can_transition State.crashed State.stopped = true
can_transition _ _ = false

pub record Machine : Type 0 where
  pub state : State
  pub pending : List State
  pub entered : List State

pub new_machine : Machine
new_machine = record { state = State.stopped; pending = []; entered = [] }

-- The part of To under the lock; a call whose transition is accepted then waits for its callback.
pub transition : Machine → State → Machine × Bool
unfolding can_transition
transition m s =
    if can_transition m.state s
    then (record m { state = s; pending = m.pending ++ (s ∷ []) }, true)
    else (m, false)

enter : Machine → List State → List State → Machine
enter m front [] = m
enter m front (s ∷ rest) = record m { pending = front ++ rest; entered = m.entered ++ (s ∷ []) }

-- The part behind the unlock: the call at index `k` among those that wait runs its callback.
pub call_back : Machine → ℕ → Machine
unfolding enter
call_back m k = enter m (take k m.pending) (drop k m.pending)

-- A call of To during which no other call runs.
pub to : Machine → State → Machine × Bool
unfolding transition call_back
to m s =
    let (after, accepted) = transition m s in
    (if accepted then call_back after (length m.pending) else after, accepted)

-- Whether `Stop` was called on the process, and whether its exit was an error.
pub reap_decision : Bool → Bool → Option State
reap_decision true failed = none
reap_decision false true = some State.crashed
reap_decision false false = some State.stopped
