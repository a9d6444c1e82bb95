-- ===== src/Telnet/Replies.antt =====
-- iac.go: `Reply` may be called between any two reads. What is decoded does not depend on it.
use iolbox.Common.{ℕ, ◌≡◌, refl, sym, ap, ◌∙◌, List, [], ◌∷◌, ◌++◌, append-nil, append_assoc, arith}
use mathlib.Core.List.{flatten}
use iolbox.Telnet.{
  NegState, Negotiator, iac, do_opt, dont, will, wont, step, step_in, steps, feed, take_reply,
  handle_option, handle_do, handle_dont, handle_will, handle_wont,
}
use iolbox.Telnet.Streams.{feed-append}

-- Replies that nobody has taken are carried through.
abbrev replying : List ℕ → Negotiator → Negotiator
replying pre n = record n { reply = pre ++ n.reply }

handle_do-replying :
    (pre : List ℕ) (n : Negotiator) (opt : ℕ)
    → handle_do (replying pre n) opt ≡ replying pre (handle_do n opt)
unfolding handle_do
handle_do-replying pre n opt = ground (
  arith,
  append_assoc pre n.reply (iac ∷ will ∷ opt ∷ []),
  append_assoc pre n.reply (iac ∷ wont ∷ opt ∷ []),
)

handle_dont-replying :
    (pre : List ℕ) (n : Negotiator) (opt : ℕ)
    → handle_dont (replying pre n) opt ≡ replying pre (handle_dont n opt)
unfolding handle_dont
handle_dont-replying pre n opt = ground (arith, append_assoc pre n.reply (iac ∷ wont ∷ opt ∷ []))

handle_will-replying :
    (pre : List ℕ) (n : Negotiator) (opt : ℕ)
    → handle_will (replying pre n) opt ≡ replying pre (handle_will n opt)
unfolding handle_will
handle_will-replying pre n opt = ground (
  arith,
  append_assoc pre n.reply (iac ∷ do_opt ∷ opt ∷ []),
  append_assoc pre n.reply (iac ∷ dont ∷ opt ∷ []),
)

handle_wont-replying :
    (pre : List ℕ) (n : Negotiator) (opt : ℕ)
    → handle_wont (replying pre n) opt ≡ replying pre (handle_wont n opt)
unfolding handle_wont
handle_wont-replying pre n opt = ground (arith, append_assoc pre n.reply (iac ∷ dont ∷ opt ∷ []))

handle_option-replying :
    (pre : List ℕ) (n : Negotiator) (cmd opt : ℕ)
    → handle_option (replying pre n) cmd opt ≡ replying pre (handle_option n cmd opt)
unfolding handle_option
handle_option-replying pre n cmd opt = ground (
  arith,
  handle_do-replying pre n opt,
  handle_dont-replying pre n opt,
  handle_will-replying pre n opt,
  handle_wont-replying pre n opt,
)

step_in-replying :
    (pre : List ℕ) (s : NegState) (n : Negotiator) (b : ℕ)
    → step_in s (replying pre n) b ≡ replying pre (step_in s n b)
unfolding step_in
step_in-replying pre NegState.st_data n b = ground arith
step_in-replying pre NegState.st_iac n b = ground arith
step_in-replying pre NegState.st_cmd n b = ground (arith, handle_option-replying pre n n.pending b)
step_in-replying pre NegState.st_sb n b = ground arith
step_in-replying pre NegState.st_sbiac n b = ground arith

steps-replying :
    (pre : List ℕ) (n : Negotiator) (p : List ℕ)
    → steps (replying pre n) p ≡ replying pre (steps n p)
unfolding steps step
steps-replying pre n [] = refl
steps-replying pre n (b ∷ p) =
    rw (step_in-replying pre n.state n b) (steps-replying pre (step n b) p)

feed-take_reply : (n : Negotiator) (p : List ℕ) → (feed (take_reply n).0 p).1 ≡ (feed n p).1
unfolding feed take_reply
feed-take_reply n p =
    let quiet : Negotiator = record n { out = []; reply = [] } in
    let full : replying n.reply quiet ≡ record n { out = [] } =
      λ i. record n { out = []; reply = append-nil n.reply i } in
    let carried : steps (record n { out = [] }) p ≡ replying n.reply (steps quiet p) =
      ap (λ (m : Negotiator). steps m p) (sym full) ∙ steps-replying n.reply quiet p in
    ap (λ (m : Negotiator). m.out) (sym carried)

-- What a read answers stands behind the answers that nobody has taken.
pub feed-reply :
    (n : Negotiator) (p : List ℕ)
    → (feed n p).0.reply ≡ (take_reply n).1 ++ (feed (take_reply n).0 p).0.reply
unfolding feed take_reply
feed-reply n p =
    let quiet : Negotiator = record n { out = []; reply = [] } in
    let full : replying n.reply quiet ≡ record n { out = [] } =
      λ i. record n { out = []; reply = append-nil n.reply i } in
    ap (λ (m : Negotiator). (steps m p).reply) (sym full)
    ∙ ap (λ (m : Negotiator). m.reply) (steps-replying n.reply quiet p)

-- A stream that arrives in any reads, the replies taken after each one.
unfoldable pub decoded : Negotiator → List (List ℕ) → List ℕ
decoded n [] = []
decoded n (p ∷ reads) = (feed n p).1 ++ decoded (take_reply (feed n p).0).0 reads

pub decoded-feed :
    (n : Negotiator) (reads : List (List ℕ)) → decoded n reads ≡ (feed n (flatten reads)).1
unfolding decoded flatten
decoded-feed n [] = unfold feed steps in refl
decoded-feed n (p ∷ reads) =
    let m = (feed n p).0 in
    ap (λ (l : List ℕ). (feed n p).1 ++ l)
      (decoded-feed (take_reply m).0 reads ∙ feed-take_reply m (flatten reads))
    ∙ ap (λ (x : Negotiator × List ℕ). x.1) (sym (feed-append n p (flatten reads)))
