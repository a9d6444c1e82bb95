-- ===== src/Tacacs/Server/Login.antt =====
-- tacacs.go: a login with a name and a password, on the wire.
use iolbox.Common.{
  ℕ, ◌≡◌, refl, sym, ap, ◌∙◌, Bool, true, false, ◌||◌, ◌&&◌, if◌then◌else◌, List, [], ◌∷◌, ◌++◌,
  append_assoc, none, some, Bool-cases, ◌⊎◌, inl, inr,
}
use iolbox.Common.Texts.{Text, eq_text}
use iolbox.Tacacs.{TacacsHeader, TacacsPacket, is_empty}
use iolbox.Tacacs.Pad.{IsDigest}
use iolbox.Tacacs.Authen.{
  TacacsAuthenStart, TacacsAuthenContinue, encode_authen_start, encode_authen_continue,
  decode_authen_start, decode_authen_continue,
}
use iolbox.Tacacs.Authen.RoundTrips.{decode_authen_start-encode}
use iolbox.Tacacs.Authen.Replies.{decode_authen_continue-encode}
use iolbox.Radius.{User, Config}
use iolbox.Tacacs.Server.{
  Log, Outcome, Attempt, password_prompt, write_authen, handle_start, handle_continue,
  handle_authen, decide, outcome, add_attempt, authentication_successful, invalid_credentials,
}
use iolbox.Tacacs.Server.Session.{TacacsSession, stage_start, need_password}
use iolbox.Tacacs.Server.Policy.{tacacs_key, find_user}
use iolbox.Tacacs.Server.Replies.{
  takes_all, Carries, IsRequest, verdict, password_prompt-IsShort, verdict-IsShort,
  write_authen_lem,
}

-- Whether a user of the configuration has this name and this password.
abbrev pub knows : List User → Text → Text → Bool
knows [] name password = false
knows (u ∷ users) name password =
    eq_text u.username name && eq_text u.password password || knows users name password

-- What the log says of the login.
abbrev pub attempt_of : Text → Bool → Attempt
attempt_of name true = record { user = name; accepted = true; message = authentication_successful }
attempt_of name false = record { user = name; accepted = false; message = invalid_credentials }

handle_start_name :
    (md5 : List ℕ → List ℕ) (start : TacacsAuthenStart) (request : TacacsHeader) (cfg : Config)
    (state : TacacsSession) (log : Log)
    → start.action ≡ 1
    → start.authen_type ≡ 1
    → is_empty start.user ≡ false
    → handle_start md5 takes_all start request cfg state log
      ≡ outcome false
          (record state { username = start.user; stage = need_password })
          (write_authen md5 takes_all request cfg password_prompt log)
unfolding handle_start
handle_start_name md5 start request cfg state log a t u = rw (a, t, u) refl

handle_continue_password :
    (md5 : List ℕ → List ℕ) (c : TacacsAuthenContinue) (request : TacacsHeader) (cfg : Config)
    (state : TacacsSession) (log : Log)
    → c.flags ≡ 0
    → state.stage ≡ need_password
    → handle_continue md5 takes_all c request cfg state log
      ≡ decide md5 takes_all (find_user cfg.users state.username c.user_msg) request cfg state log
unfolding handle_continue
handle_continue_password md5 c request cfg state log f st = rw (f, st) refl

find_user-knows :
    (users : List User) (name password : Text)
    → ((find_user users name password ≡ none) × (knows users name password ≡ false))
      ⊎ ((u : User) × (find_user users name password ≡ some u) × (knows users name password ≡ true))
unfolding find_user
find_user-knows [] name password = inl (refl, refl)
find_user-knows (u ∷ users) name password =
    elim (Bool-cases (eq_text u.username name && eq_text u.password password)) [
      | inl e ↦ inr (
        u,
        (λ i. if e i then some u else find_user users name password),
        λ i. e i || knows users name password,
      )
      | inr e ↦ elim (find_user-knows users name password) [
        | inl (f, k) ↦ inl (
          (λ i. if e i then some u else find_user users name password) ∙ f,
          (λ i. e i || knows users name password) ∙ k,
        )
        | inr (v, f, k) ↦ inr (
          v,
          (λ i. if e i then some u else find_user users name password) ∙ f,
          (λ i. e i || knows users name password) ∙ k,
        )
      ]
    ]

decide_lem :
    (md5 : List ℕ → List ℕ) (request : TacacsHeader) (cfg : Config) (state : TacacsSession)
    (password : Text) (log : Log)
    → let known = knows cfg.users state.username password in
      decide md5 takes_all (find_user cfg.users state.username password) request cfg state log
      ≡ outcome true state (
          write_authen md5 takes_all request cfg
            (verdict known)
            (record log { attempts = log.attempts ++ (attempt_of state.username known ∷ []) }))
unfolding add_attempt
decide_lem md5 request cfg state password log =
    let F = λ (known : Bool). outcome true state (
      write_authen md5 takes_all request cfg (verdict known)
        (record log { attempts = log.attempts ++ (attempt_of state.username known ∷ []) })) in
    elim (find_user-knows cfg.users state.username password) [
      | inl (f, k) ↦ (λ i. decide md5 takes_all (f i) request cfg state log) ∙ ap F (sym k)
      | inr (u, f, k) ↦ (λ i. decide md5 takes_all (f i) request cfg state log) ∙ ap F (sym k)
    ]

-- The first packet of a login: the name, and the prompt for the password as the reply.
handle_start_lem :
    (md5 : List ℕ → List ℕ) (digest : IsDigest md5) (start : TacacsAuthenStart)
    (request : TacacsHeader) (cfg : Config) (state : TacacsSession) (log : Log)
    → IsRequest request
    → is_empty (tacacs_key cfg) ≡ false
    → start.action ≡ 1
    → start.authen_type ≡ 1
    → is_empty start.user ≡ false
    → (wire : List ℕ) × (handle_start md5 takes_all start request cfg state log ≡ record {
      final = false;
      error = none;
      state = record state { username = start.user; stage = need_password };
      log = record log { sent = log.sent ++ (wire ∷ []) };
    })
      × Carries md5 request (tacacs_key cfg) password_prompt wire
handle_start_lem md5 digest start request cfg state log r key a t u =
    let (wire, e, carries) =
      write_authen_lem md5 digest request cfg password_prompt log r key password_prompt-IsShort in
    (
      wire,
      handle_start_name md5 start request cfg state log a t u
          ∙ ap (outcome false (record state { username = start.user; stage = need_password })) e,
      carries,
    )

-- The second: the password, and the verdict as the reply.
handle_continue_lem :
    (md5 : List ℕ → List ℕ) (digest : IsDigest md5) (c : TacacsAuthenContinue)
    (request : TacacsHeader) (cfg : Config) (state : TacacsSession) (log : Log)
    → IsRequest request
    → is_empty (tacacs_key cfg) ≡ false
    → c.flags ≡ 0
    → state.stage ≡ need_password
    → (wire : List ℕ) × (handle_continue md5 takes_all c request cfg state log ≡ record {
      final = true;
      error = none;
      state = state;
      log = record {
        sent = log.sent ++ (wire ∷ []);
        attempts =
            log.attempts
            ++ (attempt_of state.username (knows cfg.users state.username c.user_msg) ∷ []);
      };
    })
      × Carries md5 request
          (tacacs_key cfg)
          (verdict (knows cfg.users state.username c.user_msg))
          wire
handle_continue_lem md5 digest c request cfg state log r key f st =
    let known = knows cfg.users state.username c.user_msg in
    let (wire, e, carries) =
      write_authen_lem md5 digest request cfg (verdict known)
        (record log { attempts = log.attempts ++ (attempt_of state.username known ∷ []) }) r key
        (verdict-IsShort known) in
    (
      wire,
      handle_continue_password md5 c request cfg state log f st
          ∙ decide_lem md5 request cfg state c.user_msg log
          ∙ ap (outcome true state) e,
      carries,
    )

handle_authen-start :
    (md5 : List ℕ → List ℕ) (start : TacacsAuthenStart) (p : TacacsPacket) (cfg : Config)
    (state : TacacsSession) (log : Log)
    → state.stage ≡ stage_start
    → decode_authen_start p.body ≡ some start
    → handle_authen md5 takes_all p cfg state log
      ≡ handle_start md5 takes_all start p.header cfg state log
unfolding handle_authen
handle_authen-start md5 start p cfg state log st d = rw (st, d) refl

handle_authen-continue :
    (md5 : List ℕ → List ℕ) (c : TacacsAuthenContinue) (p : TacacsPacket) (cfg : Config)
    (state : TacacsSession) (log : Log)
    → state.stage ≡ need_password
    → decode_authen_continue p.body ≡ some c
    → handle_authen md5 takes_all p cfg state log
      ≡ handle_continue md5 takes_all c p.header cfg state log
unfolding handle_authen
handle_authen-continue md5 c p cfg state log st d = rw (st, d) refl

-- A login with a name and a password, when the connection takes every write and the key is not empty: the
-- server prompts for the password and then passes or fails the client, by whether a user of the
-- configuration has the name and the password; the client can read both replies; and one attempt is
-- recorded, with that verdict.
pub handle_authen-login :
    (md5 : List ℕ → List ℕ) (digest : IsDigest md5) (cfg : Config) (state : TacacsSession)
    (log : Log) (start : TacacsAuthenStart) (c : TacacsAuthenContinue) (p1 p2 : TacacsPacket)
    → IsRequest p1.header
    → IsRequest p2.header
    → is_empty (tacacs_key cfg) ≡ false
    → state.stage ≡ stage_start
    → encode_authen_start start ≡ some p1.body
    → start.action ≡ 1
    → start.authen_type ≡ 1
    → is_empty start.user ≡ false
    → encode_authen_continue c ≡ some p2.body
    → c.flags ≡ 0
    → let o1 = handle_authen md5 takes_all p1 cfg state log in
      let o2 = handle_authen md5 takes_all p2 cfg o1.state o1.log in
      let known = knows cfg.users start.user c.user_msg in
      (w1 w2 : List ℕ) × ((o1.final ≡ false) × (o1.error ≡ none))
      × ((o2.final ≡ true) × (o2.error ≡ none))
      × (o2.log.sent ≡ log.sent ++ (w1 ∷ w2 ∷ []))
      × (o2.log.attempts ≡ log.attempts ++ (attempt_of start.user known ∷ []))
      × Carries md5 p1.header (tacacs_key cfg) password_prompt w1
      × Carries md5 p2.header (tacacs_key cfg) (verdict known) w2
handle_authen-login md5 digest cfg state log start c p1 p2 r1 r2 key st b1 a t u b2 f =
    let (w1, e1, c1) = handle_start_lem md5 digest start p1.header cfg state log r1 key a t u in
    let state1 = record state { username = start.user; stage = need_password } in
    let log1 = record log { sent = log.sent ++ (w1 ∷ []) } in
    let (w2, e2, c2) = handle_continue_lem md5 digest c p2.header cfg state1 log1 r2 key f refl in
    let g1 =
      handle_authen-start md5 start p1 cfg state log st
        (decode_authen_start-encode start p1.body b1)
      ∙ e1 in
    let g2 =
      handle_authen-continue md5 c p2 cfg state1 log1 refl
        (decode_authen_continue-encode c p2.body b2)
      ∙ e2 in
    let both : handle_authen md5 takes_all p2 cfg
          (handle_authen md5 takes_all p1 cfg state log).state
          (handle_authen md5 takes_all p1 cfg state log).log
        ≡ _ =
      ap (λ (o : Outcome). handle_authen md5 takes_all p2 cfg o.state o.log) g1 ∙ g2 in
    (
      w1,
      w2,
      (ap Outcome.final g1, ap Outcome.error g1),
      (ap Outcome.final both, ap Outcome.error both),
      ap (λ (o : Outcome). o.log.sent) both ∙ append_assoc log.sent (w1 ∷ []) (w2 ∷ []),
      ap (λ (o : Outcome). o.log.attempts) both,
      c1,
      c2,
    )
