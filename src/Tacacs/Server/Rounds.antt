-- ===== src/Tacacs/Server/Rounds.antt =====
-- tacacs.go: the loop over a connection's packets comes to an end.
use iolbox.Common.{
  ℕ, zero, suc, Bool, ◌+◌, ◌<◌, ◌≤◌, ◌∙◌, ◌≡◌, refl, not, ◌||◌, ltb, if◌then◌else◌, Bool-cases, inl,
  inr, List, length, take, drop, length-drop, Option, some, arith,
}
use iolbox.Common.Texts.{Text}
use iolbox.Tacacs.{decode_tacacs_header}
use iolbox.Radius.{Config}
use iolbox.Tacacs.Server.{Failure, Log}
use iolbox.Tacacs.Server.Session.{TacacsSession}
use iolbox.Tacacs.Server.Connection.{
  Step, next, closed, continue_step, handle_bytes, handle_rounds, handle_conn,
}

continue_step_total :
    (s : Step) (more : TacacsSession → Log → Option Log)
    → ((state : TacacsSession) (log : Log) → (l : Log) × (more state log ≡ some l))
    → (l : Log) × (continue_step s more ≡ some l)
continue_step_total (closed log) more total = (log, refl)
continue_step_total (next state log) more total = total state log

module _ (md5 : List ℕ → List ℕ) (fold trim : Text → Text) (equal_fold : Text → Text → Bool)
    (error_text : Failure → Text) (takes : List (List ℕ) → List ℕ → Bool)
    (snapshot : ℕ → Config) where
  handle_rounds_total :
      (round fuel : ℕ) (input : List ℕ) (state : TacacsSession) (log : Log)
      → length input < fuel
      → (l : Log) × (handle_rounds md5 fold trim equal_fold error_text takes snapshot round fuel
            input state log
          ≡ some l)
  unfolding handle_rounds
  handle_rounds_total round zero input state log enough = absurd (omega (arith, enough))
  handle_rounds_total round (suc fuel) input state log enough =
      let (header, valid) = decode_tacacs_header (take 12 input) in
      let size = 12 + header.length in
      let stop = ltb (length input) 12 || not valid || ltb (length input) size in
      let more =
        handle_rounds md5 fold trim equal_fold error_text takes snapshot (suc round) fuel
          (drop size input) in
      let step =
        handle_bytes md5 fold trim equal_fold error_text takes (take size input) header
          (snapshot round) state log in
      elim (Bool-cases stop) [
        | inl e ↦ (log, λ i. if e i then some log else continue_step step more)
        | inr e ↦
            let long : 12 ≤ length input = ground (arith, e) in
            let (l, p) = continue_step_total step more (λ state1 log1.
              handle_rounds_total (suc round) fuel (drop size input) state1 log1
                (omega (arith, enough, long, length-drop size input))) in
            (l, (λ i. if e i then some log else continue_step step more) ∙ p)
      ]

  -- A connection is handled to its end whatever the client sends: the fuel is enough.
  pub handle_conn_total :
      (input : List ℕ)
      → (l : Log) × (handle_conn md5 fold trim equal_fold error_text takes snapshot input ≡ some l)
  unfolding handle_conn
  handle_conn_total input = handle_rounds_total 0 (suc (length input)) input _ _ (omega arith)
