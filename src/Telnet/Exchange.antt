-- ===== src/Telnet/Exchange.antt =====
-- Two negotiators wired mouth to mouth: what one replies is fed to the other, until one is silent.
-- This is the loopback of the console hub and the web bridge that iac.go describes.
use iolbox.Common.{
  ℕ, zero, suc, ◌+◌, ◌-◌, ◌≤◌, ◌≡◌, refl, ◌∙◌, ◌⊎◌, inl, inr, Bool, true, false, List, [], ◌∷◌,
  Option, some, none, arith,
}
use iolbox.Telnet.{
  NegState, Negotiator, iac, dont, do_opt, wont, will, opt_sga, is_option_cmd, step, step_in, steps,
  feed, take_reply, handle_option, handle_do, handle_dont, handle_will, handle_wont,
}

-- One side reads the bytes and gives up its reply.
pub deliver : Negotiator → List ℕ → Negotiator × List ℕ
unfolding feed take_reply
deliver n p = take_reply (feed n p).0

-- `msg` goes to `b`, its answer to `a`, and so on; `none` if somebody still talks after `fuel`
-- messages.
pub exchange : ℕ → Negotiator → Negotiator → List ℕ → Option (Negotiator × Negotiator)
exchange zero a b msg = none
exchange (suc fuel) a b msg = elim (deliver b msg).1 [
  | [] ↦ some (a, (deliver b msg).0)
  | x ∷ r ↦ exchange fuel (deliver b msg).0 a (x ∷ r)
]

-- Between messages: all input read, all replies taken.
pub record IsQuiet (n : Negotiator) : Type 0 where
  pub in_data : n.state ≡ NegState.st_data
  pub no_reply : n.reply ≡ []

abbrev pub message : ℕ → ℕ → List ℕ
message cmd opt = iac ∷ cmd ∷ opt ∷ []

-- The negotiator that answers: the request is read, and nothing else differs.
abbrev asked : Negotiator → ℕ → Negotiator
asked n cmd = record n { out = []; pending = cmd; state = NegState.st_cmd; reply = [] }

deliver-message :
    (n : Negotiator) (cmd opt : ℕ)
    → IsQuiet n
    → is_option_cmd cmd ≡ true
    → deliver n (message cmd opt) ≡ (
      record (handle_option (asked n cmd) cmd opt) { state = NegState.st_data; reply = [] },
      (handle_option (asked n cmd) cmd opt).reply,
    )
unfolding deliver steps step step_in
deliver-message n cmd opt q h = ground arith

abbrev bit : Bool → ℕ
bit true = 1
bit false = 0

-- How many answers a side has left, in a refusal exchange, about what it does itself.
abbrev local_room : Negotiator → ℕ → ℕ
local_room n opt = bit (n.local_on opt) + (1 - bit (n.local_ref opt))

abbrev remote_room : Negotiator → ℕ → ℕ
remote_room n opt = bit (n.remote_on opt) + (1 - bit (n.remote_ref opt))

-- DONT: either silence, or WONT and one answer fewer left.
record Dont (n : Negotiator) (opt : ℕ) (r : Negotiator × List ℕ) : Type 0 where
  quiet : IsQuiet r.0
  remote_kept : remote_room r.0 opt ≡ remote_room n opt
  answer : (r.1 ≡ []) ⊎ ((r.1 ≡ message wont opt) × (suc (local_room r.0 opt) ≤ local_room n opt))

record Wont (n : Negotiator) (opt : ℕ) (r : Negotiator × List ℕ) : Type 0 where
  quiet : IsQuiet r.0
  local_kept : local_room r.0 opt ≡ local_room n opt
  answer : (r.1 ≡ []) ⊎ ((r.1 ≡ message dont opt) × (suc (remote_room r.0 opt) ≤ remote_room n opt))

deliver-Dont : (n : Negotiator) (opt : ℕ) → IsQuiet n → Dont n opt (deliver n (message dont opt))
unfolding handle_option handle_dont
deliver-Dont n opt q = rw (deliver-message n dont opt q refl) (ground arith)

deliver-Wont : (n : Negotiator) (opt : ℕ) → IsQuiet n → Wont n opt (deliver n (message wont opt))
unfolding handle_option handle_wont
deliver-Wont n opt q = rw (deliver-message n wont opt q refl) (ground arith)

exchange_silent :
    (k : ℕ) (a b : Negotiator) (msg : List ℕ)
    → (deliver b msg).1 ≡ []
    → exchange (suc k) a b msg ≡ some (a, (deliver b msg).0)
unfolding exchange
exchange_silent k a b msg h = rw (h, exchange)

exchange_answer :
    (k : ℕ) (a b : Negotiator) (msg : List ℕ) {x : ℕ} {r : List ℕ}
    → (deliver b msg).1 ≡ x ∷ r
    → exchange (suc k) a b msg ≡ exchange k (deliver b msg).0 a (x ∷ r)
unfolding exchange
exchange_answer k a b msg h = rw (h, exchange)

-- The exchange falls silent within `k` messages, both sides quiet.
abbrev pub Ends : ℕ → Negotiator → Negotiator → List ℕ → Type 0
Ends k a b msg =
    (r : Negotiator × Negotiator) × (exchange k a b msg ≡ some r) × IsQuiet r.0 × IsQuiet r.1

Ends-silent :
    (k : ℕ) (a b : Negotiator) (msg : List ℕ)
    → IsQuiet a
    → IsQuiet (deliver b msg).0
    → (deliver b msg).1 ≡ []
    → Ends (suc k) a b msg
Ends-silent k a b msg qa qb h = ((a, (deliver b msg).0), exchange_silent k a b msg h, qa, qb)

Ends-answer :
    (k : ℕ) (a b : Negotiator) (msg : List ℕ) (x : ℕ) (r : List ℕ)
    → (deliver b msg).1 ≡ x ∷ r
    → Ends k (deliver b msg).0 a (x ∷ r)
    → Ends (suc k) a b msg
Ends-answer k a b msg x r h (p, e, qa, qb) = (p, exchange_answer k a b msg h ∙ e, qa, qb)

mutual
  Ends-dont :
      (k opt : ℕ) (a b : Negotiator)
      → IsQuiet a
      → IsQuiet b
      → local_room b opt + remote_room a opt ≤ k
      → Ends (suc k) a b (message dont opt)
  Ends-dont zero opt a b qa qb m =
      let d = deliver-Dont b opt qb in
      elim d.answer [
        | inl h ↦ Ends-silent 0 a b _ qa d.quiet h
        | inr (h, less) ↦ absurd (omega arith)
      ]
  Ends-dont (suc k) opt a b qa qb m =
      let d = deliver-Dont b opt qb in
      elim d.answer [
        | inl h ↦ Ends-silent (suc k) a b _ qa d.quiet h
        | inr (h, less) ↦
            Ends-answer (suc k) a b _ _ _ h (Ends-wont k opt _ a d.quiet qa (omega arith))
      ]

  Ends-wont :
      (k opt : ℕ) (a b : Negotiator)
      → IsQuiet a
      → IsQuiet b
      → remote_room b opt + local_room a opt ≤ k
      → Ends (suc k) a b (message wont opt)
  Ends-wont zero opt a b qa qb m =
      let d = deliver-Wont b opt qb in
      elim d.answer [
        | inl h ↦ Ends-silent 0 a b _ qa d.quiet h
        | inr (h, less) ↦ absurd (omega arith)
      ]
  Ends-wont (suc k) opt a b qa qb m =
      let d = deliver-Wont b opt qb in
      elim d.answer [
        | inl h ↦ Ends-silent (suc k) a b _ qa d.quiet h
        | inr (h, less) ↦
            Ends-answer (suc k) a b _ _ _ h (Ends-dont k opt _ a d.quiet qa (omega arith))
      ]

-- DO: silence, a first WONT, or WILL with the option then on.
record Do (n : Negotiator) (opt : ℕ) (r : Negotiator × List ℕ) : Type 0 where
  quiet : IsQuiet r.0
  sga_on : opt ≡ opt_sga → r.0.local_on opt ≡ true
  on_silent : n.local_on opt ≡ true → opt ≡ opt_sga → r.1 ≡ []
  answer : (r.1 ≡ []) ⊎ (r.1 ≡ message wont opt) ⊎ ((opt ≡ opt_sga) × (r.1 ≡ message will opt))

record Will (n : Negotiator) (opt : ℕ) (r : Negotiator × List ℕ) : Type 0 where
  quiet : IsQuiet r.0
  on_silent : n.remote_on opt ≡ true → opt ≡ opt_sga → r.1 ≡ []
  answer :
      (r.1 ≡ [])
      ⊎ (r.1 ≡ message dont opt)
      ⊎ ((r.0.remote_on opt ≡ true) × (r.1 ≡ message do_opt opt))

deliver-Do : (n : Negotiator) (opt : ℕ) → IsQuiet n → Do n opt (deliver n (message do_opt opt))
unfolding handle_option handle_do
deliver-Do n opt q = rw (deliver-message n do_opt opt q refl) (ground arith)

deliver-Will : (n : Negotiator) (opt : ℕ) → IsQuiet n → Will n opt (deliver n (message will opt))
unfolding handle_option handle_will
deliver-Will n opt q = rw (deliver-message n will opt q refl) (ground arith)

module _ (opt : ℕ) (a b : Negotiator) (qa : IsQuiet a) (qb : IsQuiet b) where
  Ends-dont_all : (k : ℕ) → 4 ≤ k → Ends (suc k) a b (message dont opt)
  Ends-dont_all k h = Ends-dont k opt a b qa qb (ground arith)

  Ends-wont_all : (k : ℕ) → 4 ≤ k → Ends (suc k) a b (message wont opt)
  Ends-wont_all k h = Ends-wont k opt a b qa qb (ground arith)

  -- A request for an option that is on already is an acknowledgement, and ends the exchange.
  Ends-do_on :
      (k : ℕ) → b.local_on opt ≡ true → opt ≡ opt_sga → Ends (suc k) a b (message do_opt opt)
  Ends-do_on k on s =
      let d = deliver-Do b opt qb in Ends-silent k a b _ qa d.quiet (d.on_silent on s)

  Ends-will_on :
      (k : ℕ) → b.remote_on opt ≡ true → opt ≡ opt_sga → Ends (suc k) a b (message will opt)
  Ends-will_on k on s =
      let w = deliver-Will b opt qb in Ends-silent k a b _ qa w.quiet (w.on_silent on s)

module _ (opt : ℕ) (a b : Negotiator) (qa : IsQuiet a) (qb : IsQuiet b) where
  -- WILL to a side that has just been told DO by it.
  Ends-will_back : opt ≡ opt_sga → b.local_on opt ≡ true → Ends 7 b a (message will opt)
  Ends-will_back s on =
      let w = deliver-Will a opt qa in
      elim w.answer [
        | inl h ↦ Ends-silent 6 b a _ qb w.quiet h
        | inr (inl h) ↦ Ends-answer 6 b a _ _ _ h (Ends-dont_all opt _ b w.quiet qb 5 (omega arith))
        | inr (inr (r, h)) ↦ Ends-answer 6 b a _ _ _ h (Ends-do_on opt _ b w.quiet qb 5 on s)
      ]

  Ends-do_back : b.remote_on opt ≡ true → Ends 7 b a (message do_opt opt)
  Ends-do_back on =
      let d = deliver-Do a opt qa in
      elim d.answer [
        | inl h ↦ Ends-silent 6 b a _ qb d.quiet h
        | inr (inl h) ↦ Ends-answer 6 b a _ _ _ h (Ends-wont_all opt _ b d.quiet qb 5 (omega arith))
        | inr (inr (s, h)) ↦ Ends-answer 6 b a _ _ _ h (Ends-will_on opt _ b d.quiet qb 5 on s)
      ]

module _ (opt : ℕ) (a b : Negotiator) (qa : IsQuiet a) (qb : IsQuiet b) where
  Ends-do : Ends 8 a b (message do_opt opt)
  Ends-do =
      let d = deliver-Do b opt qb in
      elim d.answer [
        | inl h ↦ Ends-silent 7 a b _ qa d.quiet h
        | inr (inl h) ↦ Ends-answer 7 a b _ _ _ h (Ends-wont_all opt _ a d.quiet qa 6 (omega arith))
        | inr (inr (s, h)) ↦
            Ends-answer 7 a b _ _ _ h (Ends-will_back opt a _ qa d.quiet s (d.sga_on s))
      ]

  Ends-will : Ends 8 a b (message will opt)
  Ends-will =
      let d = deliver-Will b opt qb in
      elim d.answer [
        | inl h ↦ Ends-silent 7 a b _ qa d.quiet h
        | inr (inl h) ↦ Ends-answer 7 a b _ _ _ h (Ends-dont_all opt _ a d.quiet qa 6 (omega arith))
        | inr (inr (on, h)) ↦ Ends-answer 7 a b _ _ _ h (Ends-do_back opt a _ qa d.quiet on)
      ]

option_cmd_cases :
    (cmd : ℕ)
    → is_option_cmd cmd ≡ true
    → (cmd ≡ do_opt) ⊎ (cmd ≡ dont) ⊎ (cmd ≡ will) ⊎ (cmd ≡ wont)
option_cmd_cases cmd h = ground arith

-- Two negotiators that are between messages, whatever either holds of the option, cannot answer
-- one another for ever: after a DO, DONT, WILL or WONT to one of them, for any option byte, at most
-- eight messages pass, this one included, and both are between messages again.
pub exchange-Ends :
    (a b : Negotiator) (cmd opt : ℕ)
    → IsQuiet a
    → IsQuiet b
    → is_option_cmd cmd ≡ true
    → Ends 8 a b (message cmd opt)
exchange-Ends a b cmd opt qa qb h = elim (option_cmd_cases cmd h) [
  | inl e ↦ rw e (Ends-do opt a b qa qb)
  | inr (inl e) ↦ rw e (Ends-dont_all opt a b qa qb 7 (omega arith))
  | inr (inr (inl e)) ↦ rw e (Ends-will opt a b qa qb)
  | inr (inr (inr e)) ↦ rw e (Ends-wont_all opt a b qa qb 7 (omega arith))
]
