-- ===== src/Node/ConsoleHub/Input.antt =====
-- console_hub.go: the way from the clients to the pty. A turn gives one programmatic caller the pty for
-- itself, while the input of everyone else is queued. The waits of `lockInput` and between two attempts
-- of `claimTurn` are not here: each attempt is a step, and `expired` says that the caller's context is
-- done when the step is made.
pub mod Turns
pub mod Arbitration
mod Runs
use iolbox.Common.{
  ℕ, ◌+◌, ◌%◌, ◌^◌, Bool, true, false, not, ◌||◌, ltb, ◌==◌, if◌then◌else◌, List, [], ◌∷◌, ◌++◌,
  Option, none, some, length, take,
}
use iolbox.Common.Texts.{Text}
use iolbox.Node.ConsoleHub.{InputTurn, ConsoleHub, update}

abbrev pub turn_queue_cap : ℕ
turn_queue_cap = 256

pub data WriteError : Type 0 where
  ctx_done deadline_failed write_failed short_write hub_closed turn_expired : WriteError

-- What a write of the pty does: whether the two seconds for a whole queue are over before it, whether
-- SetWriteDeadline fails, how many bytes Write takes, and whether it fails.
pub record PtyWrite : Type 0 where
  pub late : Bool
  pub no_deadline : Bool
  pub taken : ℕ
  pub failed : Bool

-- `inputTurn.claim`
pub claim : InputTurn → Text → InputTurn × Bool
claim t holder =
    if t.active
    then (t, false)
    else (record t { active = true; holder = holder; id = (t.id + 1) % 2 ^ 64 }, true)

-- `for len(t.queue) > turnQueueCap`
pub trim : List (List ℕ) → List (List ℕ)
trim [] = []
trim (p ∷ queue) = if ltb turn_queue_cap (length (p ∷ queue)) then trim queue else p ∷ queue

pub enqueue : InputTurn → List ℕ → InputTurn
unfolding trim
enqueue t p = record t { queue = trim (t.queue ++ (p ∷ [])) }

pub release : InputTurn → InputTurn × List (List ℕ)
release t =
    if t.active then (record t { active = false; holder = []; queue = [] }, t.queue) else (t, [])

abbrev pub is_empty {ℓ} : {A : Type ℓ} → List A → Bool
is_empty [] = true
is_empty (x ∷ xs) = false

-- The error of `writePTY` behind Write.
abbrev verdict : PtyWrite → List ℕ → Option WriteError
verdict r p =
    if r.failed then some write_failed else if r.taken == length p then none else some short_write

abbrev pub is_err : Option WriteError → Bool
is_err none = false
is_err (some e) = true

pub data ClaimResult : Type 0 where
  claimed : (turn_number id : ℕ) → ClaimResult
  busy : ClaimResult
  refused : WriteError → ClaimResult

module _ (pty : ℕ → List ℕ → PtyWrite) where
  pub write_pty : ConsoleHub → Bool → List ℕ → ConsoleHub × Option WriteError
  write_pty h expired p =
      let r = pty h.writes p in
      let h' = record h { writes = h.writes + 1; written = h.written ++ take r.taken p } in
      if expired
      then (h, some ctx_done)
      else if r.no_deadline
      then (record h { writes = h.writes + 1 }, some deadline_failed)
      else (h', verdict r p)

  pub gated_write : ConsoleHub → List ℕ → ConsoleHub × Option WriteError
  unfolding write_pty enqueue
  gated_write h p =
      if is_empty p
      then (h, none)
      else if h.done
      then (h, some hub_closed)
      else if h.turn.active
      then (record h { turn = enqueue h.turn p }, none)
      else write_pty h false p

  pub write_direct : ConsoleHub → List ℕ → ConsoleHub × Option WriteError
  unfolding write_pty
  write_direct h p = if is_empty p then (h, none) else write_pty h false p

  -- One attempt of `claimTurn`. A turn that is claimed has a number, by which it is released.
  pub claim_turn : ConsoleHub → Bool → Text → ConsoleHub × ClaimResult
  unfolding claim
  claim_turn h expired holder =
      let (t, got) = claim h.turn holder in
      if expired
      then (h, refused ctx_done)
      else if h.closed || h.done
      then (h, refused hub_closed)
      else if got
      then (record h { turn = t; claims = h.claims + 1 }, claimed h.claims t.id)
      else (h, busy)

  -- The loop of `releaseTurn`, which ends with the hub or at the first error.
  pub drain : ConsoleHub → List (List ℕ) → ConsoleHub
  unfolding write_pty
  drain h [] = h
  drain h (p ∷ queued) =
      let (h', error) = write_pty h (pty h.writes p).late p in
      let rest = drain h' queued in if h.done then h else if is_err error then h' else rest

  pub release_turn : ConsoleHub → Bool → ConsoleHub
  unfolding release drain
  release_turn h flush =
      let (t, queued) = release h.turn in
      let h' = record h { turn = t } in if flush then drain h' queued else h'

  -- The holder's `release` and the watchdog of turn number `n`, of which the first alone releases: with
  -- the queue when the holder is ready or its context ends, without it when the hub ends.
  pub release_once : ConsoleHub → ℕ → Bool → ConsoleHub
  unfolding release_turn
  release_once h n flush =
      let h' = release_turn (record h { finished = update h.finished n true }) flush in
      if h.finished n then h else h'

  pub write_turn : ConsoleHub → Bool → ℕ → List ℕ → ConsoleHub × Option WriteError
  unfolding write_pty
  write_turn h expired id p =
      if expired
      then (h, some ctx_done)
      else if h.done
      then (h, some hub_closed)
      else if not h.turn.active || not (h.turn.id == id)
      then (h, some turn_expired)
      else write_pty h false p
