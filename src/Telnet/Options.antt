-- ===== src/Telnet/Options.antt =====
-- iac.go: one option request answered, and asked again.
use iolbox.Common.{
  ℕ, zero, suc, ◌≡◌, refl, ap, ◌∙◌, ◌⊎◌, Bool, true, false, List, [], ◌∷◌, ◌++◌, append_assoc,
  arith,
}
use iolbox.Telnet.{
  NegState, Negotiator, step, step_in, steps, feed, take_reply, iac, dont, do_opt, wont, will,
  handle_option, handle_do, handle_dont, handle_will, handle_wont,
}

do_once : (n : Negotiator) (opt : ℕ) → handle_do (handle_do n opt) opt ≡ handle_do n opt
unfolding handle_do
do_once n opt = ground arith

will_once : (n : Negotiator) (opt : ℕ) → handle_will (handle_will n opt) opt ≡ handle_will n opt
unfolding handle_will
will_once n opt = ground arith

dont_settles :
    (n : Negotiator) (opt : ℕ)
    → handle_dont (handle_dont (handle_dont n opt) opt) opt ≡ handle_dont (handle_dont n opt) opt
unfolding handle_dont
dont_settles n opt = ground arith

wont_settles :
    (n : Negotiator) (opt : ℕ)
    → handle_wont (handle_wont (handle_wont n opt) opt) opt ≡ handle_wont (handle_wont n opt) opt
unfolding handle_wont
wont_settles n opt = ground arith

-- Whatever the command byte, the option and the negotiator, a request made for the third time in a
-- row changes nothing and is not answered: it leaves the negotiator and its reply as the second did.
pub handle_option_settles :
    (n : Negotiator) (cmd opt : ℕ)
    → let twice = handle_option (handle_option n cmd opt) cmd opt in
      handle_option twice cmd opt ≡ twice
unfolding handle_option
handle_option_settles n cmd opt =
    ground (arith, do_once n opt, will_once n opt, dont_settles n opt, wont_settles n opt)

-- DO and WILL are settled by the first request: a repeated one changes nothing and gets no answer.
pub handle_option_once :
    (n : Negotiator) (cmd opt : ℕ)
    → (cmd ≡ do_opt) ⊎ (cmd ≡ will)
    → handle_option (handle_option n cmd opt) cmd opt ≡ handle_option n cmd opt
unfolding handle_option
handle_option_once n cmd opt h = ground (arith, do_once n opt, will_once n opt)

-- A DONT for one option, as it is sent.
abbrev once : ℕ → ℕ → List ℕ
once cmd opt = iac ∷ cmd ∷ opt ∷ []

-- The same command, some number of times.
unfoldable pub requests : ℕ → ℕ → ℕ → List ℕ
requests zero cmd opt = []
requests (suc k) cmd opt = iac ∷ cmd ∷ opt ∷ requests k cmd opt

abbrev told : Negotiator → ℕ → Negotiator
told n opt = step (step (step n iac) dont) opt

-- How a negotiator stands to an option, between two requests.
abbrev Stands : Negotiator → ℕ → Bool → Bool → Type 0
Stands n opt on refused =
    (n.state ≡ NegState.st_data) × (n.local_on opt ≡ on) × (n.local_ref opt ≡ refused)

told_on :
    (n : Negotiator) (opt : ℕ)
    → Stands n opt true false
    → Stands (told n opt) opt false false × ((told n opt).reply ≡ n.reply ++ once wont opt)
unfolding step step_in handle_option handle_dont
told_on n opt (d, on, fresh) = ground (arith, d, on, fresh)

told_off :
    (n : Negotiator) (opt : ℕ)
    → Stands n opt false false
    → Stands (told n opt) opt false true × ((told n opt).reply ≡ n.reply ++ once wont opt)
unfolding step step_in handle_option handle_dont
told_off n opt (d, off, fresh) = ground (arith, d, off, fresh)

told_refused :
    (n : Negotiator) (opt : ℕ)
    → Stands n opt false true
    → Stands (told n opt) opt false true × ((told n opt).reply ≡ n.reply)
unfolding step step_in handle_option handle_dont
told_refused n opt (d, off, said) = ground (arith, d, off, said)

steps_refused :
    (n : Negotiator) (opt k : ℕ)
    → Stands n opt false true
    → ((steps n (requests k dont opt)).reply ≡ n.reply)
      × ((steps n (requests k dont opt)).local_on opt ≡ false)
unfolding steps requests
steps_refused n opt zero (_, off, _) = (refl, off)
steps_refused n opt (suc k) s =
    let (s1, r1) = told_refused n opt s in
    let (r, off) = steps_refused (told n opt) opt k s1 in (r ∙ r1, off)

steps_off :
    (n : Negotiator) (opt k : ℕ)
    → Stands n opt false false
    → ((steps n (requests (suc k) dont opt)).reply ≡ n.reply ++ once wont opt)
      × ((steps n (requests (suc k) dont opt)).local_on opt ≡ false)
unfolding steps requests
steps_off n opt k s =
    let (s1, r1) = told_off n opt s in
    let (r, off) = steps_refused (told n opt) opt k s1 in (r ∙ r1, off)

-- However many times over, from the second on, a peer sends DONT for an option that is on and whose
-- refusal was never announced, in one read and between commands: the answers are WONT twice and nothing
-- more, and the option is off.
pub feed-requests :
    (n : Negotiator) (opt k : ℕ)
    → n.state ≡ NegState.st_data
    → n.local_on opt ≡ true
    → n.local_ref opt ≡ false
    → let m = (feed n (requests (suc (suc k)) dont opt)).0 in
      ((take_reply m).1 ≡ n.reply ++ requests 2 wont opt) × (m.local_on opt ≡ false)
unfolding feed take_reply requests steps
feed-requests n opt k d on fresh =
    let n0 = record n { out = [] } in
    let (s1, r1) = told_on n0 opt (d, on, fresh) in
    let (r, off) = steps_off (told n0 opt) opt k s1 in
    (
      r
          ∙ ap (λ (l : List ℕ). l ++ once wont opt) r1
          ∙ append_assoc n.reply (once wont opt) (once wont opt),
      off,
    )
