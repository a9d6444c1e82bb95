-- ===== src/Tacacs/Server/Sequence.antt =====
-- tacacs.go: the headers that acceptHeader takes, one after another.
use mathlib.Core.Path.{subst}
use iolbox.Common.{
  ℕ, ◌+◌, ◌%◌, ◌≤◌, ◌≡◌, ◌↔◌, Bool, true, false, refl, sym, ap, ◌∙◌, List, [], ◌∷◌, arith,
}
use iolbox.Tacacs.{TacacsHeader}
use iolbox.Tacacs.Server.Session.{
  TacacsSession, new_session, Accepted, accepted, refused, accept_header,
}

abbrev if_accepted : Accepted → (TacacsSession → Bool) → Bool
if_accepted (refused e) rest = false
if_accepted (accepted state) rest = rest state

-- Whether all of these headers are accepted in turn.
pub accept_headers : TacacsSession → List TacacsHeader → Bool
accept_headers state [] = true
accept_headers state (h ∷ headers) =
    if_accepted (accept_header state h) (λ s. accept_headers s headers)

-- Headers of one session and version with every odd number from `seq` on, none above 253.
abbrev pub InTurn : ℕ → ℕ → ℕ → List TacacsHeader → Type 0
InTurn session_id version seq [] = Unit
InTurn session_id version seq (h ∷ headers) =
    (h.session_id ≡ session_id)
    × (h.version ≡ version)
    × (h.seq_no ≡ seq)
    × (seq ≤ 253)
    × InTurn session_id version (seq + 2) headers

abbrev pub Conversation : List TacacsHeader → Type 0
Conversation [] = Unit
Conversation (h ∷ headers) = InTurn h.session_id h.version 1 (h ∷ headers)

abbrev taken : TacacsSession → TacacsHeader → TacacsSession
taken state h = record state { last_seq = h.seq_no }

accept_header-next :
    (state : TacacsSession) (h : TacacsHeader)
    → state.initialized ≡ true
    → state.last_seq % 2 ≡ 1
    → h.session_id ≡ state.session_id
    → h.version ≡ state.version
    → h.seq_no ≡ state.last_seq + 2
    → state.last_seq + 2 ≤ 253
    → accept_header state h ≡ accepted (taken state h)
unfolding accept_header
accept_header-next state h init odd s v n small = ground arith

accept_header-accepted :
    (state next : TacacsSession) (h : TacacsHeader)
    → state.initialized ≡ true
    → state.last_seq % 2 ≡ 1
    → accept_header state h ≡ accepted next
    → (h.session_id ≡ state.session_id)
      × (h.version ≡ state.version)
      × (h.seq_no ≡ state.last_seq + 2)
      × (state.last_seq + 2 ≤ 253)
      × (next ≡ taken state h)
unfolding accept_header
accept_header-accepted state next h init odd e = ground (arith, e)

if_accepted-true :
    (a : Accepted) (rest : TacacsSession → Bool)
    → if_accepted a rest ≡ true
    → (next : TacacsSession) × (a ≡ accepted next) × (rest next ≡ true)
if_accepted-true (refused e) rest h = cc h
if_accepted-true (accepted state) rest h = (state, refl, h)

accept_headers-InTurn :
    (state : TacacsSession) (headers : List TacacsHeader)
    → state.initialized ≡ true
    → state.last_seq % 2 ≡ 1
    → state.last_seq ≤ 253
    → (accept_headers state headers ≡ true)
      ↔ InTurn state.session_id state.version (state.last_seq + 2) headers
unfolding accept_headers
accept_headers-InTurn state [] init odd small = (λ _. tt, λ _. refl)
accept_headers-InTurn state (h ∷ headers) init odd small = (
  λ p.
      let (next, a, r) = if_accepted-true (accept_header state h) _ p in
      let (s, v, n, small1, q) = accept_header-accepted state next h init odd a in
      let t : InTurn state.session_id state.version (h.seq_no + 2) headers =
        (accept_headers-InTurn (taken state h) headers init (omega (arith, n, odd))
            (omega (arith, n, small1))).0
          (ap (λ (x : TacacsSession). accept_headers x headers) (sym q) ∙ r) in
      (s, v, n, small1, rw (sym n) t),
  λ (s, v, n, small1, t).
      ap (λ (a : Accepted). if_accepted a (λ x. accept_headers x headers))
        (accept_header-next state h init odd s v n small1)
      ∙ (accept_headers-InTurn (taken state h) headers init (omega (arith, n, odd))
            (omega (arith, n, small1))).1
          (rw n t),
)

abbrev begun : TacacsHeader → TacacsSession
begun h = record new_session {
  initialized = true;
  session_id = h.session_id;
  version = h.version;
  last_seq = h.seq_no;
}

accept_header-begun :
    (h : TacacsHeader) → h.seq_no ≡ 1 → accept_header new_session h ≡ accepted (begun h)
unfolding accept_header
accept_header-begun h n = ground arith

accept_header-first :
    (next : TacacsSession) (h : TacacsHeader)
    → accept_header new_session h ≡ accepted next
    → (h.seq_no ≡ 1) × (next ≡ begun h)
unfolding accept_header
accept_header-first next h e = ground (arith, e)

-- The headers of a connection are all accepted exactly if they have one session and one version and are
-- numbered 1, 3, 5, and so on, up to 253 at most.
pub accept_headers-Conversation :
    (headers : List TacacsHeader)
    → (accept_headers new_session headers ≡ true) ↔ Conversation headers
unfolding accept_headers
accept_headers-Conversation [] = (λ _. tt, λ _. refl)
accept_headers-Conversation (h ∷ headers) = (
  λ p.
      let (next, a, r) = if_accepted-true (accept_header new_session h) _ p in
      let (n, q) = accept_header-first next h a in
      let t : InTurn h.session_id h.version (h.seq_no + 2) headers =
        (accept_headers-InTurn (begun h) headers refl (omega (arith, n)) (omega (arith, n))).0
          (ap (λ (x : TacacsSession). accept_headers x headers) (sym q) ∙ r) in
      (
        refl,
        refl,
        n,
        omega arith,
        subst (λ (k : ℕ). InTurn h.session_id h.version (k + 2) headers) n t,
      ),
  λ (_, _, n, _, t).
      ap (λ (a : Accepted). if_accepted a (λ x. accept_headers x headers)) (accept_header-begun h n)
      ∙ (accept_headers-InTurn (begun h) headers refl (omega (arith, n)) (omega (arith, n))).1
          (subst (λ (k : ℕ). InTurn h.session_id h.version (k + 2) headers) (sym n) t),
)
