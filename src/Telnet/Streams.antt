-- ===== src/Telnet/Streams.antt =====
-- iac.go: what `Feed` makes of a byte stream, however the stream is cut into reads.
use iolbox.Common.{
  ℕ, ◌/◌, ◌%◌, ◌≡◌, refl, sym, ap, ◌∙◌, List, [], ◌∷◌, ◌++◌, append-nil, append_assoc, arith,
}
use iolbox.Telnet.{
  NegState, Negotiator, iac, se, sb_begin, opt_naws, step, step_in, steps, feed, handle_option,
  handle_do, handle_dont, handle_will, handle_wont, write_escaped_byte, write_escaped16, naws,
}

-- The output so far is never read, so a prefix of it is carried through.
abbrev prefixed : List ℕ → Negotiator → Negotiator
prefixed pre n = record n { out = pre ++ n.out }

handle_option-prefixed :
    (pre : List ℕ) (n : Negotiator) (cmd opt : ℕ)
    → handle_option (prefixed pre n) cmd opt ≡ prefixed pre (handle_option n cmd opt)
unfolding handle_option handle_do handle_dont handle_will handle_wont
handle_option-prefixed pre n cmd opt = ground arith

step_in-prefixed :
    (pre : List ℕ) (s : NegState) (n : Negotiator) (b : ℕ)
    → step_in s (prefixed pre n) b ≡ prefixed pre (step_in s n b)
unfolding step_in
step_in-prefixed pre NegState.st_data n b = ground (arith, append_assoc pre n.out (b ∷ []))
step_in-prefixed pre NegState.st_iac n b = ground (arith, append_assoc pre n.out (iac ∷ []))
step_in-prefixed pre NegState.st_cmd n b = ground (arith, handle_option-prefixed pre n n.pending b)
step_in-prefixed pre NegState.st_sb n b = ground arith
step_in-prefixed pre NegState.st_sbiac n b = ground arith

steps-prefixed :
    (pre : List ℕ) (n : Negotiator) (p : List ℕ)
    → steps (prefixed pre n) p ≡ prefixed pre (steps n p)
unfolding steps step
steps-prefixed pre n [] = refl
steps-prefixed pre n (b ∷ p) =
    rw (step_in-prefixed pre n.state n b) (steps-prefixed pre (step n b) p)

pub steps-append : (n : Negotiator) (p q : List ℕ) → steps n (p ++ q) ≡ steps (steps n p) q
unfolding steps
steps-append n [] q = refl
steps-append n (b ∷ p) q = steps-append (step n b) p q

-- `Feed` sees only the bytes: a stream cut into two reads gives, over both, the output and the
-- negotiator that one read of the whole stream gives. The `out` buffer alone holds the last read.
pub feed-append :
    (n : Negotiator) (p q : List ℕ)
    → let (n1, out1) = feed n p in
      let (n2, out2) = feed n1 q in
      feed n (p ++ q) ≡ (record n2 { out = out1 ++ out2 }, out1 ++ out2)
unfolding feed
feed-append n p q =
    let whole : steps (record n { out = [] }) (p ++ q)
        ≡ prefixed (steps (record n { out = [] }) p).out
            (steps (record (steps (record n { out = [] }) p) { out = [] }) q) =
      steps-append (record n { out = [] }) p q ∙ rest in
    rw whole
  where
    first : Negotiator
    first = steps (record n { out = [] }) p

    same : prefixed first.out (record first { out = [] }) ≡ first
    same = λ i. record first { out = append-nil first.out i }

    rest : steps first q ≡ prefixed first.out (steps (record first { out = [] }) q)
    rest =
        ap (λ (m : Negotiator). steps m q) (sym same)
        ∙ steps-prefixed first.out (record first { out = [] }) q

-- Application data as RFC 854 sends it: every 0xFF doubled.
unfoldable pub escaped : List ℕ → List ℕ
unfolding write_escaped_byte
escaped [] = []
escaped (b ∷ p) = write_escaped_byte b ++ escaped p

steps_escaped_byte :
    (n : Negotiator) (b : ℕ) (q : List ℕ)
    → n.state ≡ NegState.st_data
    → steps n (write_escaped_byte b ++ q)
      ≡ steps (record n { out = n.out ++ (b ∷ []); state = NegState.st_data }) q
unfolding steps step step_in write_escaped_byte
steps_escaped_byte n b q h = ground arith

steps-escaped :
    (n : Negotiator) (p : List ℕ)
    → n.state ≡ NegState.st_data
    → steps n (escaped p) ≡ record n { out = n.out ++ p; state = NegState.st_data }
unfolding escaped
steps-escaped n [] h = unfold steps in ground (arith, append-nil n.out)
steps-escaped n (b ∷ p) h =
    steps_escaped_byte n b (escaped p) h
    ∙ steps-escaped (record n { out = n.out ++ (b ∷ []); state = NegState.st_data }) p refl
    ∙ ap (λ (o : List ℕ). record n { out = o; state = NegState.st_data })
        (append_assoc n.out (b ∷ []) p)

-- In the data state, application data whose 0xFF bytes are doubled comes out as it was sent, with
-- no option, subnegotiation or reply touched, and the negotiator is in the data state again.
pub feed-escaped :
    (n : Negotiator) (p : List ℕ)
    → n.state ≡ NegState.st_data
    → feed n (escaped p) ≡ (record n { out = p }, p)
unfolding feed
feed-escaped n p h = ground (arith, steps-escaped (record n { out = [] }) p h)

-- In a subnegotiation an escaped byte is one byte of the payload.
sb_escaped_byte :
    (n : Negotiator) (b : ℕ) (q : List ℕ)
    → n.state ≡ NegState.st_sb
    → steps n (write_escaped_byte b ++ q)
      ≡ steps (record n { sb = n.sb ++ (b ∷ []); state = NegState.st_sb }) q
unfolding steps step step_in write_escaped_byte
sb_escaped_byte n b q h = ground arith

sb_escaped16 :
    (n : Negotiator) (v : ℕ) (q : List ℕ)
    → n.state ≡ NegState.st_sb
    → steps n (write_escaped16 v ++ q)
      ≡ steps
          (record n { sb = n.sb ++ ((v / 256 % 256) ∷ (v % 256) ∷ []); state = NegState.st_sb })
          q
unfolding write_escaped16
sb_escaped16 n v q h =
    ap (steps n) (append_assoc (write_escaped_byte hi) (write_escaped_byte lo) q)
    ∙ sb_escaped_byte n hi (write_escaped_byte lo ++ q) h
    ∙ sb_escaped_byte (record n { sb = n.sb ++ (hi ∷ []); state = NegState.st_sb }) lo q refl
    ∙ ap (λ (s : List ℕ). steps (record n { sb = s; state = NegState.st_sb }) q)
        (append_assoc n.sb (hi ∷ []) (lo ∷ []))
  where
    hi : ℕ
    hi = v / 256 % 256

    lo : ℕ
    lo = v % 256

naws_opens :
    (n : Negotiator) (q : List ℕ)
    → n.state ≡ NegState.st_data
    → steps n (iac ∷ sb_begin ∷ opt_naws ∷ q)
      ≡ steps (record n { sb = opt_naws ∷ []; state = NegState.st_sb }) q
unfolding steps step step_in
naws_opens n q h = ground arith

naws_closes :
    (n : Negotiator)
    → n.state ≡ NegState.st_sb
    → steps n (iac ∷ se ∷ []) ≡ record n { state = NegState.st_data }
unfolding steps step step_in
naws_closes n h = ground arith

-- A window-size report is one subnegotiation to a negotiator in the data state, whatever the size,
-- 0xFF bytes included: no output, no reply, no option changed, the data state again, and the
-- payload read is the option byte and the two sizes, high byte first.
pub feed-naws :
    (n : Negotiator) (cols rows : ℕ)
    → n.state ≡ NegState.st_data
    → feed n (naws cols rows) ≡ (
      record n {
        out = [];
        sb = opt_naws ∷ (cols / 256 % 256) ∷ (cols % 256) ∷ (rows / 256 % 256) ∷ (rows % 256) ∷ [];
      },
      [],
    )
unfolding feed naws
feed-naws n cols rows h = ground (arith, h, opened, first, second, closed)
  where
    tail : List ℕ
    tail = write_escaped16 rows ++ (iac ∷ se ∷ [])

    n0 : Negotiator
    n0 = record n { out = [] }

    n1 : Negotiator
    n1 = record n0 { sb = opt_naws ∷ []; state = NegState.st_sb }

    n2 : Negotiator
    n2 = record n1 { sb = opt_naws ∷ (cols / 256 % 256) ∷ (cols % 256) ∷ [] }

    n3 : Negotiator
    n3 = record n2 { sb = n2.sb ++ ((rows / 256 % 256) ∷ (rows % 256) ∷ []) }

    opened : steps n0 (naws cols rows) ≡ steps n1 (write_escaped16 cols ++ tail)
    opened = naws_opens n0 (write_escaped16 cols ++ tail) h

    first : steps n1 (write_escaped16 cols ++ tail) ≡ steps n2 tail
    first = sb_escaped16 n1 cols tail refl

    second : steps n2 tail ≡ steps n3 (iac ∷ se ∷ [])
    second = sb_escaped16 n2 rows (iac ∷ se ∷ []) refl

    closed : steps n3 (iac ∷ se ∷ []) ≡ record n3 { state = NegState.st_data }
    closed = naws_closes n3 refl
