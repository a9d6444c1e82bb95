-- ===== src/Node/ConsoleHub/Output/Screens.antt =====
-- console_hub.go: what a subscriber sees of the pty's output.
use iolbox.Common.{
  ℕ, ◌-◌, ◌≤◌, ◌<◌, ◌≡◌, refl, sym, ap, ◌∙◌, ◌⊎◌, inl, inr, true, false, ltb, List, [], ◌∷◌, ◌++◌,
  some, length, keep_last, keep_last_all, keep_last-append, length-drop, append-nil, append_assoc,
  Bool-cases, arith,
}
use mathlib.Core.List.{flatten}
use iolbox.Common.Texts.{Text, codes}
use iolbox.Node.ConsoleHub.{ConsoleHub, new_console_hub}
use iolbox.Node.ConsoleHub.Output.{
  replay_ring_size, close_client, append_ring, preamble, register_locked, subscribe, detach,
  shutdown, receive,
}
use iolbox.Node.ConsoleHub.Output.Broadcasts.{broadcast-Frame, close_members-Frame}
use iolbox.Node.ConsoleHub.Output.Events.{
  Event, arrived, arrived_bytes, bytes_of, ended, joined, left, run, run-Shown, step, taken,
}

append_ring_lem :
    (ring chunk : List ℕ) → append_ring ring chunk ≡ keep_last replay_ring_size (ring ++ chunk)
unfolding append_ring
append_ring_lem ring chunk = elim (Bool-cases (ltb 0 (length (ring ++ chunk) - replay_ring_size))) [
  | inl more ↦ rw more
  | inr fits ↦ rw fits (sym (keep_last_all replay_ring_size (ring ++ chunk) (ground arith)))
]

length-keep_last-le : (n : ℕ) (xs : List ℕ) → length (keep_last n xs) ≤ n
length-keep_last-le n xs = omega (arith, length-drop (length xs - n) xs)

same_ring :
    (ring : List ℕ)
    → length ring ≤ replay_ring_size
    → ring ≡ keep_last replay_ring_size (ring ++ [])
same_ring ring fits = rw (append-nil ring) (sym (keep_last_all replay_ring_size ring fits))

step_ring :
    (c : ℕ) (h : ConsoleHub) (e : Event)
    → length h.ring ≤ replay_ring_size
    → (step c h e).0.ring ≡ keep_last replay_ring_size (h.ring ++ bytes_of e)
unfolding step receive register_locked detach close_client shutdown
step_ring c h (arrived chunk) fits = (broadcast-Frame h chunk).1 ∙ append_ring_lem h.ring chunk
step_ring c h (taken k) fits = same_ring h.ring fits
step_ring c h (joined telnet replay) fits = ground (arith, same_ring h.ring fits)
step_ring c h (left k) fits = same_ring h.ring fits
step_ring c h ended fits = ground (arith, close_members-Frame h h.made, same_ring h.ring fits)

step_name : (c : ℕ) (h : ConsoleHub) (e : Event) → (step c h e).0.name ≡ h.name
unfolding step receive register_locked detach close_client shutdown
step_name c h (arrived chunk) = (broadcast-Frame h chunk).2
step_name c h (joined telnet replay) = ground arith
step_name c h ended = ground (arith, close_members-Frame h h.made)
step_name c h (taken k) = refl
step_name c h (left k) = refl

run_ring :
    (c : ℕ) (h : ConsoleHub) (es : List Event)
    → length h.ring ≤ replay_ring_size
    → ((run c h es).0.ring ≡ keep_last replay_ring_size (h.ring ++ arrived_bytes es))
      × ((run c h es).0.name ≡ h.name)
unfolding run arrived_bytes
run_ring c h [] fits = (same_ring h.ring fits, refl)
run_ring c h (e ∷ es) fits =
    let k = (step c h e).0 in
    let ring = step_ring c h e fits in
    let rest = run_ring c k es (
      omega (arith, ap length ring, length-keep_last-le replay_ring_size (h.ring ++ bytes_of e))) in
    (
      rest.0
          ∙ ap (λ (r : List ℕ). keep_last replay_ring_size (r ++ arrived_bytes es)) ring
          ∙ keep_last-append replay_ring_size (h.ring ++ bytes_of e) (arrived_bytes es)
          ∙ ap (keep_last replay_ring_size) (append_assoc h.ring (bytes_of e) (arrived_bytes es)),
      rest.1 ∙ step_name c h e,
    )

-- The title escape of a node with a name.
abbrev pub title : Text → List ℕ
title [] = []
title (b ∷ name) = (27 ∷ codes "]0;") ++ ((b ∷ name) ++ (7 ∷ []))

preamble_parts :
    (h : ConsoleHub) (name : Text) (ring : List ℕ)
    → flatten (preamble (record h { name = name; ring = ring }) false true) ≡ title name ++ ring
unfolding preamble flatten
preamble_parts h [] [] = refl
preamble_parts h [] (r ∷ ring) = append-nil (r ∷ ring)
preamble_parts h (b ∷ name) [] = refl
preamble_parts h (b ∷ name) (r ∷ ring) =
    ap (λ (l : List ℕ). title (b ∷ name) ++ l) (append-nil (r ∷ ring))

subscribe_lem :
    (h : ConsoleHub)
    → h.closed ≡ false
    → ((subscribe h true).1 ≡ some h.made)
      × (h.made < (subscribe h true).0.made)
      × (((subscribe h true).0.client h.made).out ≡ preamble h false true)
unfolding subscribe register_locked
subscribe_lem h up = (ground (arith, up), ground (arith, up), ground (arith, up))

subscribed-Shown :
    (h : ConsoleHub) (during : List Event)
    → h.closed ≡ false
    → let s = subscribe h true in
      let w = run h.made s.0 during in
      (s.1 ≡ some h.made)
      × (missed : List ℕ) × (w.1 ++ (flatten (w.0.client h.made).out ++ missed)
          ≡ (title h.name ++ h.ring) ++ arrived_bytes during)
      × ((w.0.clients h.made ≡ false) ⊎ (missed ≡ []))
subscribed-Shown h during up =
    let s = subscribe h true in
    let (taken_id, more, queued) = subscribe_lem h up in
    let (missed, shown, late) = run-Shown h.made s.0 during [] more (inr refl) in
    (
      taken_id,
      missed,
      shown
          ∙ ap (λ (l : List ℕ). l ++ arrived_bytes during)
              (append-nil (flatten (s.0.client h.made).out)
                ∙ ap flatten queued
                ∙ preamble_parts h h.name h.ring),
      late,
    )

-- After any events of a hub that is not shut down, a new in-process subscriber gets, in order and with
-- nothing twice, the node's title, the last 8192 bytes that had come from the pty, and every byte that
-- comes from then on, whatever the others do: what it has taken and what is queued for it is all of
-- that, or it is no longer registered and only the end is missing.
pub subscribe_shown :
    (name : Text) (before during : List Event)
    → (run 0 (new_console_hub name) before).0.closed ≡ false
    → let h = (run 0 (new_console_hub name) before).0 in
      let s = subscribe h true in
      let w = run h.made s.0 during in
      (s.1 ≡ some h.made)
      × (missed : List ℕ) × (w.1 ++ (flatten (w.0.client h.made).out ++ missed)
          ≡ (title name ++ keep_last replay_ring_size (arrived_bytes before))
            ++ arrived_bytes during)
      × ((w.0.clients h.made ≡ false) ⊎ (missed ≡ []))
unfolding new_console_hub
subscribe_shown name before during up =
    let h = (run 0 (new_console_hub name) before).0 in
    let (ring, same) = run_ring 0 (new_console_hub name) before (omega arith) in
    let (id, missed, shown, late) = subscribed-Shown h during up in
    (
      id,
      missed,
      shown
          ∙ ap (λ (n : Text). (title n ++ h.ring) ++ arrived_bytes during) same
          ∙ ap (λ (r : List ℕ). (title name ++ r) ++ arrived_bytes during) ring,
      late,
    )
