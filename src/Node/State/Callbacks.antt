-- ===== src/Node/State/Callbacks.antt =====
-- state.go: what the callback is told, when calls of To run at the same time.
use mathlib.Core.List.{Perm, perm_middle}
use mathlib.Core.List.Perm
use mathlib.Core.Path.{subst}
use iolbox.Common.{
  ℕ, ◌≡◌, refl, sym, ap, ◌∙◌, true, Bool-cases, inl, inr, List, [], ◌∷◌, ◌++◌, take, drop,
  take-drop, append_assoc, append-nil,
}
use iolbox.Node.State.{
  State, can_transition, Machine, new_machine, transition, call_back, enter, to,
}

-- The edges of the state machine.
pub data Edge : State → State → Type 0 where
  launch : Edge State.stopped State.starting
  ready : Edge State.starting State.running
  fail : Edge State.starting State.crashed
  cancel : Edge State.starting State.stopped
  stop : Edge State.running State.stopped
  crash : Edge State.running State.crashed
  restart : Edge State.crashed State.starting
  clear : Edge State.crashed State.stopped

can_transition-Edge : (a b : State) → can_transition a b ≡ true → Edge a b
unfolding can_transition
can_transition-Edge State.stopped State.stopped h = cc h
can_transition-Edge State.stopped State.starting h = launch
can_transition-Edge State.stopped State.running h = cc h
can_transition-Edge State.stopped State.crashed h = cc h
can_transition-Edge State.starting State.stopped h = cancel
can_transition-Edge State.starting State.starting h = cc h
can_transition-Edge State.starting State.running h = ready
can_transition-Edge State.starting State.crashed h = fail
can_transition-Edge State.running State.stopped h = stop
can_transition-Edge State.running State.starting h = cc h
can_transition-Edge State.running State.running h = cc h
can_transition-Edge State.running State.crashed h = crash
can_transition-Edge State.crashed State.stopped h = clear
can_transition-Edge State.crashed State.starting h = restart
can_transition-Edge State.crashed State.running h = cc h
can_transition-Edge State.crashed State.crashed h = cc h

-- The states that a walk along the edges enters, from one state to another.
pub data Walk : State → List State → State → Type 0 where
  start : {a : State} → Walk a [] a
  then :
      {a b c : State} {path : List State} → Walk a path b → Edge b c → Walk a (path ++ (c ∷ [])) c

-- A call of To reaches its unlock, or the callback of a call that has done so runs.
pub data Event : Type 0 where
  asks : State → Event
  reports : ℕ → Event

unfoldable pub after : Machine → Event → Machine
unfolding transition call_back
after m (asks s) = (transition m s).0
after m (reports k) = call_back m k

unfoldable pub run : Machine → List Event → Machine
run m [] = m
run m (e ∷ es) = run (after m e) es

-- The callbacks made and those to come are, in some order, those of a walk to the machine's state.
abbrev pub Reported : Machine → Type 0
Reported m =
    (path : List State) × Walk State.stopped path m.state × Perm (m.entered ++ m.pending) path

transition-Reported : (m : Machine) (s : State) → Reported m → Reported (transition m s).0
unfolding transition
transition-Reported m s (path, w, p) = elim (Bool-cases (can_transition m.state s)) [
  | inl e ↦ rw e (
    path ++ (s ∷ []),
    then w (can_transition-Edge m.state s e),
    subst (λ (l : List State). Perm l (path ++ (s ∷ [])))
        (append_assoc m.entered m.pending (s ∷ [])) (Perm.append_right (s ∷ []) p),
  )
  | inr e ↦ rw e (path, w, p)
]

enter-Reported :
    (m : Machine) (front back : List State)
    → m.pending ≡ front ++ back
    → Reported m
    → Reported (enter m front back)
unfolding enter
enter-Reported m front [] e r = r
enter-Reported m front (s ∷ rest) e (path, w, p) = (
  path,
  w,
  subst (λ (l : List State). Perm l path) (sym (append_assoc m.entered (s ∷ []) (front ++ rest)))
      (Perm.trans (Perm.append_left m.entered (Perm.symm (perm_middle {a = s} front rest)))
        (subst (λ (l : List State). Perm (m.entered ++ l) path) e p)),
)

after-Reported : (m : Machine) (e : Event) → Reported m → Reported (after m e)
unfolding after
after-Reported m (asks s) r = transition-Reported m s r
after-Reported m (reports k) r =
    enter-Reported m (take k m.pending) (drop k m.pending) (sym (take-drop k m.pending)) r

run-Reported_from : (m : Machine) (es : List Event) → Reported m → Reported (run m es)
unfolding run
run-Reported_from m [] r = r
run-Reported_from m (e ∷ es) r = run-Reported_from (after m e) es (after-Reported m e r)

-- However calls of To overlap, the states that the callback was told, and those that it is still to be
-- told by calls past their unlock, are in some order the states entered by a walk along the machine's
-- edges from stopped to the state that it is in: each is told once, and no refused one is.
pub run-Reported : (es : List Event) → Reported (run new_machine es)
unfolding new_machine
run-Reported es = run-Reported_from _ es ([], start, Perm.nil)

-- Callbacks run in the order of their transitions.
unfoldable pub InOrder : List Event → Type 0
InOrder [] = Unit
InOrder (asks s ∷ es) = InOrder es
InOrder (reports k ∷ es) = (k ≡ 0) × InOrder es

abbrev Ordered : Machine → Type 0
Ordered m = Walk State.stopped (m.entered ++ m.pending) m.state

transition-Ordered : (m : Machine) (s : State) → Ordered m → Ordered (transition m s).0
unfolding transition
transition-Ordered m s w = elim (Bool-cases (can_transition m.state s)) [
  | inl e ↦ rw e (
      subst (λ (l : List State). Walk State.stopped l s) (append_assoc m.entered m.pending (s ∷ []))
        (then w (can_transition-Edge m.state s e)))
  | inr e ↦ rw e w
]

enter-Ordered :
    (m : Machine) (back : List State) → m.pending ≡ back → Ordered m → Ordered (enter m [] back)
unfolding enter
enter-Ordered m [] e w = w
enter-Ordered m (s ∷ rest) e w =
    subst (λ (l : List State). Walk State.stopped l m.state)
      (ap (λ (l : List State). m.entered ++ l) e ∙ sym (append_assoc m.entered (s ∷ []) rest)) w

run-Ordered : (m : Machine) (es : List Event) → InOrder es → Ordered m → Ordered (run m es)
unfolding run after InOrder
run-Ordered m [] o w = w
run-Ordered m (asks s ∷ es) o w = run-Ordered (transition m s).0 es o (transition-Ordered m s w)
run-Ordered m (reports k ∷ es) (z, o) w =
    run-Ordered (call_back m k) es o
      (subst (λ (n : ℕ). Ordered (call_back m n)) (sym z) (enter-Ordered m m.pending refl w))

-- While callbacks run in the order of their transitions, the states that the callback was told, followed by those that it is still to be told, are the states
-- entered by a walk along the machine's edges from stopped to the state that it is in, in their order.
pub run-Walk :
    (es : List Event)
    → InOrder es
    → let m = run new_machine es in Walk State.stopped (m.entered ++ m.pending) m.state
unfolding new_machine
run-Walk es o = run-Ordered _ es o start

-- Calls of To one after another.
unfoldable pub calls : Machine → List State → Machine
unfolding to
calls m [] = m
calls m (s ∷ ss) = calls (to m s).0 ss

to-Ordered :
    (m : Machine) (s : State)
    → m.pending ≡ []
    → Ordered m
    → ((to m s).0.pending ≡ []) × Ordered (to m s).0
unfolding to transition call_back enter
to-Ordered m s e w =
    let told : Walk State.stopped m.entered m.state =
      subst (λ (l : List State). Walk State.stopped l m.state)
        (ap (λ (l : List State). m.entered ++ l) e ∙ append-nil m.entered) w in
    elim (Bool-cases (can_transition m.state s)) [
      | inl c ↦
          rw (e, c)
            (
              refl,
              subst (λ (l : List State). Walk State.stopped l s)
                  (sym (append-nil (m.entered ++ (s ∷ []))))
                  (then told (can_transition-Edge m.state s c)),
            )
      | inr c ↦ rw c (e, w)
    ]

-- When no calls of To overlap, nothing waits after each of them, and the callback was told a walk.
calls-Ordered :
    (m : Machine) (ss : List State)
    → m.pending ≡ []
    → Ordered m
    → ((calls m ss).pending ≡ []) × Ordered (calls m ss)
unfolding calls
calls-Ordered m [] e w = (e, w)
calls-Ordered m (s ∷ ss) e w =
    let (e1, w1) = to-Ordered m s e w in calls-Ordered (to m s).0 ss e1 w1
