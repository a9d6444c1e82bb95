-- ===== src/Node/ConsoleHub/Output/Events.antt =====
-- console_hub.go: sequences of events of the hub, and what a client has still to get.
use iolbox.Common.{
  ℕ, ◌<◌, ◌≡◌, refl, sym, ap, ◌∙◌, ◌⊎◌, inl, inr, Bool, false, ◌==◌, ==_iff, ==_refl, if◌then◌else◌,
  List, [], ◌∷◌, ◌++◌, flatten-append, append-nil, append_assoc, Bool-cases, if_lem, arith,
}
use mathlib.Core.List.{flatten}
use mathlib.Core.Path.{subst}
use iolbox.Node.ConsoleHub.{ConsoleHub}
use iolbox.Node.ConsoleHub.Output.{
  close_client, broadcast, register_locked, detach, shutdown, head_bytes, later, receive,
}
use iolbox.Node.ConsoleHub.Output.Broadcasts.{
  Untouched, broadcast-Frame, broadcast-Offered, close_members-Frame, close_members_out,
}

-- A chunk of the pty's output, a client that takes its next chunk, one that joins or leaves, and the end.
pub data Event : Type 0 where
  arrived : List ℕ → Event
  taken : ℕ → Event
  joined : (telnet replay : Bool) → Event
  left : ℕ → Event
  ended : Event

abbrev pub bytes_of : Event → List ℕ
bytes_of (arrived chunk) = chunk
bytes_of other = []

unfoldable pub arrived_bytes : List Event → List ℕ
arrived_bytes [] = []
arrived_bytes (e ∷ es) = bytes_of e ++ arrived_bytes es

-- The hub after an event, with the bytes that client `c` takes.
unfoldable pub step : ℕ → ConsoleHub → Event → ConsoleHub × List ℕ
unfolding broadcast receive register_locked detach shutdown
step c h (arrived chunk) = (broadcast h chunk, [])
step c h (taken k) = ((receive h k).0, if k == c then (receive h k).1 else [])
step c h (joined telnet replay) = ((register_locked h telnet replay).0, [])
step c h (left k) = (detach h k, [])
step c h ended = (shutdown h, [])

unfoldable pub run : ℕ → ConsoleHub → List Event → ConsoleHub × List ℕ
unfolding step
run c h [] = (h, [])
run c h (e ∷ es) = let (h', bytes) = step c h e in let (w, got) = run c h' es in (w, bytes ++ got)

-- What a client has still to get when it is queued, and what it misses, after an event.
abbrev Shown : ℕ → ConsoleHub → ConsoleHub × List ℕ → List ℕ → List ℕ → Type 0
Shown c h (w, got) missed bytes =
    (missed' : List ℕ) × (got ++ (flatten (w.client c).out ++ missed')
      ≡ (flatten (h.client c).out ++ missed) ++ bytes)
    × ((w.clients c ≡ false) ⊎ (missed' ≡ []))

arrived-Shown :
    (c : ℕ) (h : ConsoleHub) (chunk missed : List ℕ)
    → c < h.made
    → ((h.clients c ≡ false) ⊎ (missed ≡ []))
    → Shown c h (broadcast h chunk, []) missed chunk
unfolding flatten
arrived-Shown c h chunk missed below late = elim (broadcast-Offered h chunk c below) [
  | inl (out, member, _) ↦
      let none_missed : missed ≡ [] = elim late [
        | inl gone ↦ absurd (cc (gone, member))
        | inr e ↦ e
      ] in
      let before : List ℕ = flatten (h.client c).out in
      (
        [],
        append-nil (flatten ((broadcast h chunk).client c).out)
            ∙ ap flatten out
            ∙ flatten-append (h.client c).out (chunk ∷ [])
            ∙ ap (λ (l : List ℕ). before ++ l) (append-nil chunk)
            ∙ ap (λ (l : List ℕ). l ++ chunk) (sym (append-nil before))
            ∙ ap (λ (l : List ℕ). (before ++ l) ++ chunk) (sym none_missed),
        inr refl,
      )
  | inr (out, dropped) ↦ (
    missed ++ chunk,
    ap (λ (o : List (List ℕ)). flatten o ++ (missed ++ chunk)) out
        ∙ sym (append_assoc (flatten (h.client c).out) missed chunk),
    inl dropped,
  )
]

Untouched-Shown :
    (c : ℕ) (h k : ConsoleHub) (missed : List ℕ)
    → Untouched c h k
    → ((h.clients c ≡ false) ⊎ (missed ≡ []))
    → Shown c h (k, []) missed []
Untouched-Shown c h k missed (out, member) late = (
  missed,
  ap (λ (o : List (List ℕ)). flatten o ++ missed) out
      ∙ sym (append-nil (flatten (h.client c).out ++ missed)),
  elim member [
    | inl gone ↦ inl gone
    | inr same ↦ elim late [ inl gone ↦ inl (same ∙ gone) | inr e ↦ inr e ]
  ],
)

head-later : (out : List (List ℕ)) → head_bytes out ++ flatten (later out) ≡ flatten out
unfolding flatten
head-later [] = refl
head-later (chunk ∷ out) = refl

taken-Shown :
    (c : ℕ) (h : ConsoleHub) (missed : List ℕ)
    → ((h.clients c ≡ false) ⊎ (missed ≡ []))
    → Shown c h (receive h c) missed []
unfolding receive
taken-Shown c h missed late =
    let out = (h.client c).out in
    let left_out : ((receive h c).0.client c).out ≡ later out = rw (==_refl c) in
    (
      missed,
      ap (λ (o : List (List ℕ)). head_bytes out ++ (flatten o ++ missed)) left_out
          ∙ sym (append_assoc (head_bytes out) (flatten (later out)) missed)
          ∙ ap (λ (l : List ℕ). l ++ missed) (head-later out)
          ∙ sym (append-nil (flatten out ++ missed)),
      late,
    )

receive-Untouched : (c k : ℕ) (h : ConsoleHub) → (k == c) ≡ false → Untouched c h (receive h k).0
unfolding receive
receive-Untouched c k h other = (rw other, inr refl)

register_locked-Untouched :
    (c : ℕ) (h : ConsoleHub) (telnet replay : Bool)
    → c < h.made
    → Untouched c h (register_locked h telnet replay).0
unfolding register_locked
register_locked-Untouched c h telnet replay below = (ground arith, inr (ground arith))

detach-Untouched : (c k : ℕ) (h : ConsoleHub) → Untouched c h (detach h k)
unfolding detach close_client
detach-Untouched c k h =
    (ground arith, elim (Bool-cases (k == c)) [ inl e ↦ inl (rw e) | inr e ↦ inr (rw e) ])

shutdown-Untouched : (c : ℕ) (h : ConsoleHub) → Untouched c h (shutdown h)
unfolding shutdown
shutdown-Untouched c h =
    if_lem (Untouched c h) h.done (λ _. (refl, inr refl))
      (λ _. (close_members_out h h.made c, inl refl))

step-Shown :
    (c : ℕ) (h : ConsoleHub) (e : Event) (missed : List ℕ)
    → c < h.made
    → ((h.clients c ≡ false) ⊎ (missed ≡ []))
    → Shown c h (step c h e) missed (bytes_of e)
unfolding step
step-Shown c h (arrived chunk) missed below late = arrived-Shown c h chunk missed below late
step-Shown c h (taken k) missed below late = elim (Bool-cases (k == c)) [
  | inl e ↦
      subst
        (λ (i : ℕ). Shown c h ((receive h i).0, if i == c then (receive h i).1 else []) missed [])
        (sym ((==_iff k c).0 e))
        (subst
          (λ (b : Bool). Shown c h ((receive h c).0, if b then (receive h c).1 else []) missed [])
          (sym (==_refl c)) (taken-Shown c h missed late))
  | inr e ↦
      subst (λ (b : Bool). Shown c h ((receive h k).0, if b then (receive h k).1 else []) missed [])
        (sym e) (Untouched-Shown c h (receive h k).0 missed (receive-Untouched c k h e) late)
]
step-Shown c h (joined telnet replay) missed below late =
    Untouched-Shown c h (register_locked h telnet replay).0 missed
      (register_locked-Untouched c h telnet replay below) late
step-Shown c h (left k) missed below late =
    Untouched-Shown c h (detach h k) missed (detach-Untouched c k h) late
step-Shown c h ended missed below late =
    Untouched-Shown c h (shutdown h) missed (shutdown-Untouched c h) late

step-made : (c i : ℕ) (h : ConsoleHub) (e : Event) → i < h.made → i < (step c h e).0.made
unfolding step receive register_locked detach close_client shutdown
step-made c i h (arrived chunk) below = omega (arith, broadcast-Frame h chunk)
step-made c i h (taken k) below = below
step-made c i h (joined telnet replay) below = ground arith
step-made c i h (left k) below = below
step-made c i h ended below = ground (arith, close_members-Frame h h.made)

pub run-Shown :
    (c : ℕ) (h : ConsoleHub) (es : List Event) (missed : List ℕ)
    → c < h.made
    → ((h.clients c ≡ false) ⊎ (missed ≡ []))
    → Shown c h (run c h es) missed (arrived_bytes es)
unfolding run arrived_bytes
run-Shown c h [] missed below late =
    (missed, sym (append-nil (flatten (h.client c).out ++ missed)), late)
run-Shown c h (e ∷ es) missed below late =
    let (k, bytes) = step c h e in
    let (m1, first, late1) = step-Shown c h e missed below late in
    let (m2, rest, late2) = run-Shown c k es m1 (step-made c c h e below) late1 in
    let (w, got) = run c k es in
    (
      m2,
      append_assoc bytes got (flatten (w.client c).out ++ m2)
          ∙ ap (λ (l : List ℕ). bytes ++ l) rest
          ∙ sym (append_assoc bytes (flatten (k.client c).out ++ m1) (arrived_bytes es))
          ∙ ap (λ (l : List ℕ). l ++ arrived_bytes es) first
          ∙ append_assoc (flatten (h.client c).out ++ missed) (bytes_of e) (arrived_bytes es),
      late2,
    )
