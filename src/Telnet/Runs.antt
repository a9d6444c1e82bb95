-- ===== src/Telnet/Runs.antt =====
-- Runs of the negotiator, and its theorems at concrete inputs.
use iolbox.Common.{ℕ, ◌≡◌, refl, true, false, List, [], ◌∷◌, ◌++◌}
use iolbox.Telnet.{
  NegState, Negotiator, iac, dont, do_opt, wont, will, opt_sga, opt_echo, opt_naws, new_negotiator,
  step, step_in, steps, feed, take_reply, handle_option, handle_do, handle_will, will_naws, update,
}
use iolbox.Telnet.Streams.{feed-append}
use iolbox.Telnet.Options.{requests, feed-requests}
use iolbox.Telnet.Exchange.{IsQuiet, Ends, message, exchange-Ends}

-- Echo refused and go-ahead suppressed at the start of a session, text in between.
login : List ℕ
login = iac ∷ will ∷ opt_echo ∷ b'R' ∷ iac ∷ do_opt ∷ opt_sga ∷ b'>' ∷ iac ∷ iac ∷ []

login_text : (feed new_negotiator login).1 ≡ b'R' ∷ b'>' ∷ iac ∷ []
unfolding login feed steps step step_in new_negotiator handle_option handle_do handle_will
login_text = refl

login_answers :
    (take_reply (feed new_negotiator login).0).1
    ≡ iac ∷ do_opt ∷ opt_echo ∷ iac ∷ will ∷ opt_sga ∷ []
unfolding login take_reply feed steps step step_in new_negotiator handle_option handle_do
    handle_will
login_answers = refl

will_naws_refused : (take_reply (feed new_negotiator will_naws).0).1 ≡ iac ∷ do_opt ∷ opt_naws ∷ []
unfolding will_naws take_reply feed steps step step_in new_negotiator handle_option handle_will
will_naws_refused = refl

abbrev on_sga : Negotiator
on_sga = record {
  state = NegState.st_data;
  pending = 0;
  sb = [];
  out = [];
  reply = [];
  remote_on = λ _. false;
  local_on = update (λ _. false) opt_sga true;
  local_ref = λ _. false;
  remote_ref = λ _. false;
}

on_sga-IsQuiet : IsQuiet on_sga
on_sga-IsQuiet = record { in_data = refl; no_reply = refl }

feed-append_example :
    let (n1, out1) = feed on_sga (iac ∷ []) in
    let (n2, out2) = feed n1 (iac ∷ 65 ∷ []) in
    feed on_sga (iac ∷ iac ∷ 65 ∷ []) ≡ (record n2 { out = out1 ++ out2 }, out1 ++ out2)
feed-append_example = feed-append on_sga (iac ∷ []) (iac ∷ 65 ∷ [])

feed-requests_example :
    let m = (feed on_sga (requests 3 dont opt_sga)).0 in
    ((take_reply m).1 ≡ requests 2 wont opt_sga) × (m.local_on opt_sga ≡ false)
feed-requests_example = feed-requests on_sga opt_sga 1 refl refl refl

exchange-Ends_example : Ends 8 on_sga on_sga (message dont opt_sga)
exchange-Ends_example = exchange-Ends on_sga on_sga dont opt_sga on_sga-IsQuiet on_sga-IsQuiet refl
