-- ===== src/Node/ConsoleHub/Input/Arbitration.antt =====
-- console_hub.go: while a turn lasts, its holder alone writes to the pty, and what others type comes after
-- it in order.
use iolbox.Common.{
  ℕ, suc, ◌+◌, ◌%◌, ◌^◌, ◌≤◌, ◌≡◌, ◌≢◌, refl, sym, ap, ◌∙◌, inl, inr, Bool, true, false, not, ◌||◌,
  ltb, ◌==◌, ==_refl, if◌then◌else◌, List, [], ◌∷◌, ◌++◌, none, length, take_all, All, keep_last,
  keep_last_all, keep_last-cons, keep_last-append, append-nil, append_assoc, Bool-cases, arith,
}
use mathlib.Core.List.{flatten}
use mathlib.Core.Path.{subst}
use iolbox.Common.Texts.{Text}
use iolbox.Node.ConsoleHub.{InputTurn, ConsoleHub, update, new_console_hub}
use iolbox.Node.ConsoleHub.Input.{
  PtyWrite, ClaimResult, claimed, claim, enqueue, trim, release, turn_queue_cap, write_pty,
  gated_write, claim_turn, drain, release_turn, release_once, write_turn, is_err,
}
use iolbox.Node.ConsoleHub.Input.Turns.{
  Request, typed, driven, claims, released, IsOther, driven_bytes, typed_chunks, Accepts, IsValid,
  new_console_hub-IsValid, step, step-IsValid, run, run-IsValid, run-SameEnd,
}

trim_lem : (queue : List (List ℕ)) → trim queue ≡ keep_last turn_queue_cap queue
unfolding trim
trim_lem [] = refl
trim_lem (p ∷ queue) = elim (Bool-cases (ltb turn_queue_cap (length (p ∷ queue)))) [
  | inl more ↦ rw more (trim_lem queue ∙ sym (keep_last-cons turn_queue_cap p queue (ground arith)))
  | inr fits ↦ rw fits (sym (keep_last_all turn_queue_cap (p ∷ queue) (ground arith)))
]

trim-le : (queue : List (List ℕ)) → length (trim queue) ≤ turn_queue_cap
unfolding trim
trim-le [] = omega arith
trim-le (p ∷ queue) = ground (arith, trim-le queue)

module _ (pty : ℕ → List ℕ → PtyWrite) (accepts : Accepts pty) where
  pub write_pty-accepted :
      (h : ConsoleHub) (p : List ℕ)
      → write_pty pty h false p
        ≡ (record h { writes = h.writes + 1; written = h.written ++ p }, none)
  unfolding write_pty
  write_pty-accepted h p = rw (accepts h.writes p, take_all p, ==_refl (length p))

  drain-written :
      (h : ConsoleHub) (queued : List (List ℕ))
      → h.done ≡ false
      → (drain pty h queued).written ≡ h.written ++ flatten queued
  unfolding drain flatten
  drain-written h [] up = sym (append-nil h.written)
  drain-written h (p ∷ queued) up =
      let h' = record h { writes = h.writes + 1; written = h.written ++ p } in
      let wrote : write_pty pty h (pty h.writes p).late p ≡ (h', none) =
        ap (λ (r : PtyWrite). write_pty pty h r.late p) (accepts h.writes p)
        ∙ write_pty-accepted h p in
      let next : drain pty h (p ∷ queued) ≡ drain pty h' queued = λ i.
        if up i
        then h
        else if is_err (wrote i).1
        then (wrote i).0
        else drain pty (wrote i).0 queued in
      ap (λ (k : ConsoleHub). k.written) next
      ∙ drain-written h' queued up
      ∙ append_assoc h.written p (flatten queued)

  -- Turn `n`, whose id is `id`, lasts.
  record Held (n id : ℕ) (h : ConsoleHub) : Type 0 where
    active : h.turn.active ≡ true
    same_id : h.turn.id ≡ id
    last : h.claims ≡ suc n
    unreleased : h.finished n ≡ false
    running : h.done ≡ false
    fits : length h.turn.queue ≤ turn_queue_cap
    valid : IsValid h

  claims_still :
      (n id : ℕ) (h : ConsoleHub) (expired : Bool) (holder : Text)
      → Held n id h
      → step pty h (claims expired holder) ≡ h
  unfolding step claim_turn claim
  claims_still n id h expired holder held = ground (arith, held.active)

  released_still :
      (n id : ℕ) (h : ConsoleHub) (k : ℕ) (flush : Bool)
      → Held n id h
      → k ≢ n
      → step pty h (released k flush) ≡ h
  unfolding step release_once
  released_still n id h k flush held other = elim (Bool-cases (ltb k h.claims)) [
    | inr e ↦ rw e
    | inl e ↦ elim (Bool-cases (h.finished k)) [
      | inl f ↦ rw (e, f)
      | inr f ↦
          absurd (other (omega (arith, held.last, (held.valid.unfinished k (ground arith) f).1)))
    ]
  ]

  driven_still :
      (n id : ℕ) (h : ConsoleHub) (expired : Bool) (k : ℕ) (p : List ℕ)
      → Held n id h
      → (expired || not (k == id)) ≡ true
      → step pty h (driven expired k p) ≡ h
  unfolding step write_turn
  driven_still n id h true k p held stale = refl
  driven_still n id h false k p held stale = ground (arith, held.active, held.same_id)

  typed_step :
      (n id : ℕ) (h : ConsoleHub) (b : ℕ) (p : List ℕ)
      → Held n id h
      → step pty h (typed (b ∷ p)) ≡ record h { turn = enqueue h.turn (b ∷ p) }
  unfolding step gated_write
  typed_step n id h b p held = ground (arith, held.running, held.active)

  driven_step :
      (n id : ℕ) (h : ConsoleHub) (k : ℕ) (p : List ℕ)
      → Held n id h
      → (k == id) ≡ true
      → step pty h (driven false k p) ≡ record h { writes = h.writes + 1; written = h.written ++ p }
  unfolding step write_turn
  driven_step n id h k p held own =
      ground (arith, held.running, held.active, held.same_id, write_pty-accepted h p)

  Held-typed :
      (n id : ℕ) (h : ConsoleHub) (p : List ℕ)
      → Held n id h
      → Held n id (record h { turn = enqueue h.turn p })
  unfolding enqueue
  Held-typed n id h p held = record {
    active = held.active;
    same_id = held.same_id;
    last = held.last;
    unreleased = held.unreleased;
    running = held.running;
    fits = trim-le (h.turn.queue ++ p ∷ []);
    valid = record {
      unfinished = held.valid.unfinished;
      fresh = held.valid.fresh;
      idle_queue = λ idle. absurd (cc (held.active, idle));
    };
  }

  Held-driven :
      (n id : ℕ) (h : ConsoleHub) (p : List ℕ)
      → Held n id h
      → Held n id (record h { writes = h.writes + 1; written = h.written ++ p })
  Held-driven n id h p held = record {
    active = held.active;
    same_id = held.same_id;
    last = held.last;
    unreleased = held.unreleased;
    running = held.running;
    fits = held.fits;
    valid = record {
      unfinished = held.valid.unfinished;
      fresh = held.valid.fresh;
      idle_queue = held.valid.idle_queue;
    };
  }

  abbrev Phase : ℕ → ℕ → ConsoleHub → List Request → ConsoleHub → Type 0
  Phase n id h rs w =
      Held n id w
      × (w.written ≡ h.written ++ driven_bytes id rs)
      × (w.turn.queue ≡ keep_last turn_queue_cap (h.turn.queue ++ typed_chunks rs))

  Phase-still :
      (n id : ℕ) (h : ConsoleHub) (r : Request) (rs : List Request)
      → step pty h r ≡ h
      → Phase n id h rs (run pty h rs)
      → Phase n id h rs (run pty h (r ∷ rs))
  unfolding run
  Phase-still n id h r rs e p = subst (λ (k : ConsoleHub). Phase n id h rs (run pty k rs)) (sym e) p

  Phase-typed :
      (n id : ℕ) (h : ConsoleHub) (b : ℕ) (p : List ℕ) (rs : List Request)
      → Held n id h
      → Phase n id
          (record h { turn = enqueue h.turn (b ∷ p) })
          rs
          (run pty (record h { turn = enqueue h.turn (b ∷ p) }) rs)
      → Phase n id h (typed (b ∷ p) ∷ rs) (run pty h (typed (b ∷ p) ∷ rs))
  unfolding run typed_chunks driven_bytes enqueue
  Phase-typed n id h b p rs held (kept, out, queued) =
      let chunk : List ℕ = b ∷ p in
      let same : keep_last turn_queue_cap (trim (h.turn.queue ++ chunk ∷ []) ++ typed_chunks rs)
          ≡ keep_last turn_queue_cap (h.turn.queue ++ typed_chunks (typed chunk ∷ rs)) =
        ap (λ (q : List (List ℕ)). keep_last turn_queue_cap (q ++ typed_chunks rs))
          (trim_lem (h.turn.queue ++ chunk ∷ []))
        ∙ keep_last-append turn_queue_cap (h.turn.queue ++ chunk ∷ []) (typed_chunks rs)
        ∙ ap (keep_last turn_queue_cap)
            (append_assoc h.turn.queue (chunk ∷ []) (typed_chunks rs)) in
      subst (λ (k : ConsoleHub). Phase n id h (typed chunk ∷ rs) (run pty k rs))
        (sym (typed_step n id h b p held)) (kept, out, queued ∙ same)

  Phase-driven :
      (n id : ℕ) (h : ConsoleHub) (k : ℕ) (p : List ℕ) (rs : List Request)
      → Held n id h
      → (k == id) ≡ true
      → Phase n id
          (record h { writes = h.writes + 1; written = h.written ++ p })
          rs
          (run pty (record h { writes = h.writes + 1; written = h.written ++ p }) rs)
      → Phase n id h (driven false k p ∷ rs) (run pty h (driven false k p ∷ rs))
  unfolding run typed_chunks driven_bytes
  Phase-driven n id h k p rs held own (kept, out, queued) =
      let same : (h.written ++ p) ++ driven_bytes id rs
          ≡ h.written ++ driven_bytes id (driven false k p ∷ rs) =
        rw own (append_assoc h.written p (driven_bytes id rs)) in
      subst (λ (w : ConsoleHub). Phase n id h (driven false k p ∷ rs) (run pty w rs))
        (sym (driven_step n id h k p held own)) (kept, out ∙ same, queued)

  -- A write that is not this turn's has no bytes in it.
  Phase-stale :
      (n id : ℕ) (h : ConsoleHub) (k : ℕ) (p : List ℕ) (rs : List Request)
      → (k == id) ≡ false
      → Phase n id h rs (run pty h rs)
      → Phase n id h (driven false k p ∷ rs) (run pty h rs)
  unfolding typed_chunks driven_bytes
  Phase-stale n id h k p rs stale (kept, out, queued) = (kept, rw stale out, queued)

  phase :
      (n id : ℕ) (h : ConsoleHub) (rs : List Request)
      → Held n id h
      → All (IsOther n) rs
      → Phase n id h rs (run pty h rs)
  unfolding run driven_bytes typed_chunks step gated_write
  phase n id h [] held others = (
    held,
    sym (append-nil h.written),
    rw (append-nil h.turn.queue) (sym (keep_last_all turn_queue_cap h.turn.queue held.fits)),
  )
  phase n id h (typed [] ∷ rs) held (_, others) = phase n id h rs held others
  phase n id h (typed (b ∷ p) ∷ rs) held (_, others) = Phase-typed n id h b p rs held (
      phase n id (record h { turn = enqueue h.turn (b ∷ p) }) rs (Held-typed n id h (b ∷ p) held)
        others)
  phase n id h (driven true k p ∷ rs) held (_, others) =
      Phase-still n id h (driven true k p) rs (driven_still n id h true k p held refl)
        (phase n id h rs held others)
  phase n id h (driven false k p ∷ rs) held (_, others) = elim (Bool-cases (k == id)) [
    | inl own ↦ Phase-driven n id h k p rs held own (
        phase n id (record h { writes = h.writes + 1; written = h.written ++ p }) rs
          (Held-driven n id h p held) others)
    | inr stale ↦
        subst (λ (w : ConsoleHub). Phase n id h (driven false k p ∷ rs) (run pty w rs))
          (sym (driven_still n id h false k p held (rw stale)))
          (Phase-stale n id h k p rs stale (phase n id h rs held others))
  ]
  phase n id h (claims expired holder ∷ rs) held (_, others) =
      Phase-still n id h (claims expired holder) rs (claims_still n id h expired holder held)
        (phase n id h rs held others)
  phase n id h (released k flush ∷ rs) held (other, others) =
      Phase-still n id h (released k flush) rs (released_still n id h k flush held other)
        (phase n id h rs held others)

  claim_turn_idle :
      (h : ConsoleHub) (holder : Text)
      → h.turn.active ≡ false
      → h.closed ≡ false
      → h.done ≡ false
      → claim_turn pty h false holder ≡ (
        record h {
          turn = record h.turn { active = true; holder = holder; id = (h.turn.id + 1) % 2 ^ 64 };
          claims = h.claims + 1;
        },
        claimed h.claims ((h.turn.id + 1) % 2 ^ 64),
      )
  unfolding claim_turn claim
  claim_turn_idle h holder idle open_hub up = ground (arith, idle, open_hub, up)

  claimed-Held :
      (h : ConsoleHub) (holder : Text)
      → IsValid h
      → h.turn.active ≡ false
      → h.closed ≡ false
      → h.done ≡ false
      → Held h.claims ((h.turn.id + 1) % 2 ^ 64) (claim_turn pty h false holder).0
  unfolding step
  claimed-Held h holder v idle open_hub up =
      let e = claim_turn_idle h holder idle open_hub up in
      let got : (claim_turn pty h false holder).0 ≡ _ = ap (λ (x : _ × _). x.0) e in
      record {
        active = ap (λ (k : ConsoleHub). k.turn.active) got;
        same_id = ap (λ (k : ConsoleHub). k.turn.id) got;
        last = ap (λ (k : ConsoleHub). k.claims) got ∙ omega arith;
        unreleased =
            ap (λ (k : ConsoleHub). k.finished h.claims) got ∙ v.fresh h.claims (omega arith);
        running = ap (λ (k : ConsoleHub). k.done) got ∙ up;
        fits =
            omega
              (arith, ap length (ap (λ (k : ConsoleHub). k.turn.queue) got ∙ v.idle_queue idle));
        valid = step-IsValid pty h (claims false holder) v;
      }

  release_once-Held :
      (n id : ℕ) (w : ConsoleHub)
      → Held n id w
      → (release_once pty w n true).written ≡ w.written ++ flatten w.turn.queue
  unfolding release_once release_turn release
  release_once-Held n id w held =
      let quiet : InputTurn = record w.turn { active = false; holder = []; queue = [] } in
      let free : release w.turn ≡ (quiet, w.turn.queue) = ground (arith, held.active) in
      let next : release_once pty w n true
          ≡ drain pty (record w { finished = update w.finished n true; turn = quiet })
              w.turn.queue =
        λ i.
          if held.unreleased i
          then w
          else drain pty (record w { finished = update w.finished n true; turn = (free i).0 })
              (free i).1 in
      ap (λ (k : ConsoleHub). k.written) next
      ∙ drain-written (record w { finished = update w.finished n true; turn = quiet }) w.turn.queue
          held.running

  -- Requests come from any number of callers, from the start of the hub to a moment at which no turn is
  -- active, with a pty that takes every write. The next claim gets the turn. Until it is released, the
  -- pty gets what its holder writes and nothing else, whatever the others type, claim or release; and at
  -- its release the pty gets the last 256 chunks that were typed meanwhile, in their order.
  pub turn_exclusive :
      (name holder : Text) (before during : List Request)
      → (run pty (new_console_hub name) before).turn.active ≡ false
      → All (IsOther (run pty (new_console_hub name) before).claims) during
      → let h = run pty (new_console_hub name) before in
        let id = (h.turn.id + 1) % 2 ^ 64 in
        let w = run pty (claim_turn pty h false holder).0 during in
        ((claim_turn pty h false holder).1 ≡ claimed h.claims id)
        × (w.written ≡ h.written ++ driven_bytes id during)
        × ((release_once pty w h.claims true).written
            ≡ w.written ++ flatten (keep_last turn_queue_cap (typed_chunks during)))
  unfolding new_console_hub
  turn_exclusive name holder before during idle others =
      let h = run pty (new_console_hub name) before in
      let start = new_console_hub name in
      let v = run-IsValid pty start before (new_console_hub-IsValid name) in
      let end = run-SameEnd pty start before in
      let e = claim_turn_idle h holder idle end.0 end.1 in
      let id = (h.turn.id + 1) % 2 ^ 64 in
      let h1 = (claim_turn pty h false holder).0 in
      let p = phase h.claims id h1 during (claimed-Held h holder v idle end.0 end.1) others in
      let none_yet : h1.turn.queue ≡ [] =
        ap (λ (x : ConsoleHub × _). x.0.turn.queue) e ∙ v.idle_queue idle in
      (
        ap (λ (x : _ × ClaimResult). x.1) e,
        p.1 ∙ ap (λ (x : ConsoleHub × _). x.0.written ++ driven_bytes id during) e,
        release_once-Held h.claims id (run pty h1 during) p.0
            ∙ ap (λ (q : List (List ℕ)). (run pty h1 during).written ++ flatten q)
                (rw none_yet at p.2),
      )

  -- Input that nobody's turn holds up.
  pub gated_write-accepted :
      (h : ConsoleHub) (p : List ℕ)
      → h.turn.active ≡ false
      → h.done ≡ false
      → (writes' : ℕ) × (gated_write pty h p
          ≡ (record h { writes = writes'; written = h.written ++ p }, none))
  unfolding gated_write
  gated_write-accepted h [] idle up =
      (h.writes, λ i. (record h { written = sym (append-nil h.written) i }, none))
  gated_write-accepted h (b ∷ p) idle up =
      (h.writes + 1, ground (arith, idle, up, write_pty-accepted h (b ∷ p)))
