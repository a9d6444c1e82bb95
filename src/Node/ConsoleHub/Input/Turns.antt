-- ===== src/Node/ConsoleHub/Input/Turns.antt =====
-- console_hub.go: what goes to the pty, request by request, and whose turn it is.
use iolbox.Common.{
  ℕ, suc, ◌+◌, ◌≤◌, ◌<◌, ◌≡◌, ◌≢◌, refl, sym, ap, ◌∙◌, Bool, true, false, not, ◌||◌, ltb, ◌==◌,
  if◌then◌else◌, List, [], ◌∷◌, ◌++◌, Option, length, if_lem, ltb→lt, arith,
}
use iolbox.Common.Texts.{Text}
use iolbox.Node.ConsoleHub.{InputTurn, ConsoleHub, update, new_console_hub}
use iolbox.Node.ConsoleHub.Input.{
  PtyWrite, WriteError, ClaimResult, claim, enqueue, release, is_empty, write_pty, gated_write,
  claim_turn, drain, release_turn, release_once, write_turn,
}

-- The input of any client, a write in a turn, an attempt at a turn, and the end of turn number `n`, which
-- is nobody's before it is claimed.
pub data Request : Type 0 where
  typed : List ℕ → Request
  driven : (expired : Bool) (id : ℕ) → List ℕ → Request
  claims : (expired : Bool) → Text → Request
  released : (n : ℕ) (flush : Bool) → Request

-- Turn `n` is not released by the request.
abbrev pub IsOther : ℕ → Request → Type 0
IsOther n (released k flush) = k ≢ n
IsOther n other = Unit {0}

-- The bytes that the holder of turn `id` has written, and the chunks that clients have typed.
unfoldable pub driven_bytes : ℕ → List Request → List ℕ
driven_bytes id [] = []
driven_bytes id (driven false k p ∷ rs) =
    if k == id then p ++ driven_bytes id rs else driven_bytes id rs
driven_bytes id (other ∷ rs) = driven_bytes id rs

unfoldable pub typed_chunks : List Request → List (List ℕ)
typed_chunks [] = []
typed_chunks (typed p ∷ rs) = if is_empty p then typed_chunks rs else p ∷ typed_chunks rs
typed_chunks (other ∷ rs) = typed_chunks rs

-- The pty takes every write at once.
abbrev pub Accepts : (ℕ → List ℕ → PtyWrite) → Type 0
Accepts pty =
    (i : ℕ) (p : List ℕ)
    → pty i p ≡ record { late = false; no_deadline = false; taken = length p; failed = false }

-- A turn that is claimed and not finished is the last one, and it is active.
pub record IsValid (h : ConsoleHub) : Type 0 where
  pub unfinished :
      (n : ℕ) → n < h.claims → h.finished n ≡ false → (h.turn.active ≡ true) × (suc n ≡ h.claims)
  pub fresh : (n : ℕ) → h.claims ≤ n → h.finished n ≡ false
  pub idle_queue : h.turn.active ≡ false → h.turn.queue ≡ []

pub new_console_hub-IsValid : (name : Text) → IsValid (new_console_hub name)
unfolding new_console_hub
new_console_hub-IsValid name = record {
  unfinished = λ n h. absurd (omega arith);
  fresh = λ n _. refl;
  idle_queue = λ _. refl;
}

module _ (pty : ℕ → List ℕ → PtyWrite) where
  unfoldable pub step : ConsoleHub → Request → ConsoleHub
  unfolding gated_write write_turn claim_turn release_once
  step h (typed p) = (gated_write pty h p).0
  step h (driven expired id p) = (write_turn pty h expired id p).0
  step h (claims expired holder) = (claim_turn pty h expired holder).0
  step h (released n flush) =
      let h' = release_once pty h n flush in if ltb n h.claims then h' else h

  unfoldable pub run : ConsoleHub → List Request → ConsoleHub
  run h [] = h
  run h (r ∷ rs) = run (step h r) rs

  abbrev FirstIsValid : ConsoleHub × Option WriteError → Type 0
  FirstIsValid x = IsValid x.0

  abbrev ClaimIsValid : ConsoleHub × ClaimResult → Type 0
  ClaimIsValid x = IsValid x.0

  -- The pty's bytes do not bear on the turns.
  abbrev SameTurns : ConsoleHub → ConsoleHub → Type 0
  SameTurns h k =
      (k.turn ≡ h.turn)
      × (k.claims ≡ h.claims)
      × (k.finished ≡ h.finished)
      × (k.done ≡ h.done)
      × (k.closed ≡ h.closed)

  write_pty-SameTurns :
      (h : ConsoleHub) (expired : Bool) (p : List ℕ) → SameTurns h (write_pty pty h expired p).0
  unfolding write_pty
  write_pty-SameTurns h expired p = ground arith

  drain-SameTurns : (h : ConsoleHub) (queued : List (List ℕ)) → SameTurns h (drain pty h queued)
  unfolding drain
  drain-SameTurns h [] = (refl, refl, refl, refl, refl)
  drain-SameTurns h (p ∷ queued) =
      let w = write_pty-SameTurns h (pty h.writes p).late p in
      let d = drain-SameTurns (write_pty pty h (pty h.writes p).late p).0 queued in ground arith

  SameTurns-IsValid : (h k : ConsoleHub) → SameTurns h k → IsValid h → IsValid k
  SameTurns-IsValid h k (t, c, f, _, _) v = record {
    unfinished = λ n a b.
        let u = v.unfinished n (omega (arith, a, c)) (ap (λ (g : ℕ → Bool). g n) (sym f) ∙ b) in
        (ap (λ (x : InputTurn). x.active) t ∙ u.0, u.1 ∙ sym c);
    fresh = λ n a. ap (λ (g : ℕ → Bool). g n) f ∙ v.fresh n (omega (arith, a, c));
    idle_queue = λ a.
        ap (λ (x : InputTurn). x.queue) t
        ∙ v.idle_queue (ap (λ (x : InputTurn). x.active) (sym t) ∙ a);
  }

  ended : ConsoleHub → ℕ → ConsoleHub
  ended h n = record h { finished = update h.finished n true; turn = (release h.turn).0 }

  ended-IsValid :
      (h : ConsoleHub) (n : ℕ)
      → n < h.claims
      → h.finished n ≡ false
      → IsValid h
      → IsValid (ended h n)
  unfolding ended release
  ended-IsValid h n below open_turn v =
      let last = v.unfinished n below open_turn in
      record {
        unfinished = λ k a b. ground (arith, v.unfinished k a, last);
        fresh = λ k a. ground (arith, v.fresh k a);
        idle_queue = λ a. ground (arith, last);
      }

  release_once-IsValid :
      (h : ConsoleHub) (n : ℕ) (flush : Bool)
      → n < h.claims
      → IsValid h
      → IsValid (release_once pty h n flush)
  unfolding release_once release_turn ended
  release_once-IsValid h n flush below v =
      if_lem IsValid (h.finished n) (λ _. v)
        (λ first.
          let e = ended-IsValid h n below first v in
          if_lem IsValid flush
            (λ _.
              SameTurns-IsValid (ended h n) (drain pty (ended h n) (release h.turn).1)
                (drain-SameTurns (ended h n) (release h.turn).1) e)
            (λ _. e))

  enqueued-IsValid :
      (h : ConsoleHub) (p : List ℕ)
      → h.turn.active ≡ true
      → IsValid h
      → IsValid (record h { turn = enqueue h.turn p })
  unfolding enqueue
  enqueued-IsValid h p busy v = record {
    unfinished = v.unfinished;
    fresh = v.fresh;
    idle_queue = λ idle. absurd (cc (busy, idle));
  }

  claimed-IsValid :
      (h : ConsoleHub) (holder : Text)
      → (claim h.turn holder).1 ≡ true
      → IsValid h
      → IsValid (record h { turn = (claim h.turn holder).0; claims = h.claims + 1 })
  unfolding claim
  claimed-IsValid h holder got v = record {
    unfinished = λ k a b. ground (arith, v.unfinished k, v.fresh k);
    fresh = λ k a. v.fresh k (omega arith);
    idle_queue = λ idle. ground arith;
  }

  pub step-IsValid : (h : ConsoleHub) (r : Request) → IsValid h → IsValid (step h r)
  unfolding step gated_write claim_turn write_turn
  step-IsValid h (typed p) v =
      if_lem FirstIsValid (is_empty p) (λ _. v)
        (λ _.
          if_lem FirstIsValid h.done (λ _. v)
            (λ _.
              if_lem FirstIsValid h.turn.active (λ busy. enqueued-IsValid h p busy v)
                (λ _. SameTurns-IsValid h _ (write_pty-SameTurns h false p) v)))
  step-IsValid h (driven expired id p) v =
      if_lem FirstIsValid expired (λ _. v)
        (λ _.
          if_lem FirstIsValid h.done (λ _. v)
            (λ _.
              if_lem FirstIsValid (not h.turn.active || not (h.turn.id == id)) (λ _. v)
                (λ _. SameTurns-IsValid h _ (write_pty-SameTurns h false p) v)))
  step-IsValid h (claims expired holder) v =
      if_lem ClaimIsValid expired (λ _. v)
        (λ _.
          if_lem ClaimIsValid (h.closed || h.done) (λ _. v)
            (λ _.
              if_lem ClaimIsValid (claim h.turn holder).1 (λ got. claimed-IsValid h holder got v)
                (λ _. v)))
  step-IsValid h (released n flush) v =
      if_lem IsValid (ltb n h.claims)
        (λ below. release_once-IsValid h n flush (ltb→lt n h.claims below) v) (λ _. v)

  pub run-IsValid : (h : ConsoleHub) (rs : List Request) → IsValid h → IsValid (run h rs)
  unfolding run
  run-IsValid h [] v = v
  run-IsValid h (r ∷ rs) v = run-IsValid (step h r) rs (step-IsValid h r v)

  -- No request ends the hub.
  abbrev SameEnd : ConsoleHub → ConsoleHub → Type 0
  SameEnd h k = (k.closed ≡ h.closed) × (k.done ≡ h.done)

  release_once-SameEnd :
      (h : ConsoleHub) (n : ℕ) (flush : Bool) → SameEnd h (release_once pty h n flush)
  unfolding release_once release_turn ended
  release_once-SameEnd h n flush =
      let (_, _, _, d, c) = drain-SameTurns (ended h n) (release h.turn).1 in
      if_lem (SameEnd h) (h.finished n) (λ _. (refl, refl))
        (λ _. if_lem (SameEnd h) flush (λ _. (c, d)) (λ _. (refl, refl)))

  step-SameEnd : (h : ConsoleHub) (r : Request) → SameEnd h (step h r)
  unfolding step gated_write claim_turn write_turn
  step-SameEnd h (typed p) =
      let (_, _, _, d, c) = write_pty-SameTurns h false p in ground (arith, c, d)
  step-SameEnd h (driven expired id p) =
      let (_, _, _, d, c) = write_pty-SameTurns h false p in ground (arith, c, d)
  step-SameEnd h (claims expired holder) = ground arith
  step-SameEnd h (released n flush) =
      if_lem (SameEnd h) (ltb n h.claims) (λ _. release_once-SameEnd h n flush) (λ _. (refl, refl))

  pub run-SameEnd : (h : ConsoleHub) (rs : List Request) → SameEnd h (run h rs)
  unfolding run
  run-SameEnd h [] = (refl, refl)
  run-SameEnd h (r ∷ rs) =
      let first = step-SameEnd h r in
      let rest = run-SameEnd (step h r) rs in (rest.0 ∙ first.0, rest.1 ∙ first.1)
