-- ===== src/Tacacs/Requests/Accounting.antt =====
-- tacacs_wire.go: the requests of accounting, encoded and decoded.
use iolbox.Common.{
  ℕ, ◌+◌, ◌≡◌, refl, sym, ap, ◌∙◌, true, false, not, ltb, ge→ltb, >>=-eq-some, List, [], ◌∷◌, ◌++◌,
  map, length, get_elem?, length-append, length-map, some, arith,
}
use mathlib.Core.Path.{subst}
use iolbox.Common.Texts.{Text}
use iolbox.Tacacs.Fields.{byte_lengths, decode_request_parts, all_parts, read_lengths}
use iolbox.Tacacs.Fields.Cut.{
  byte_lengths-some, read_lengths-append, decode_request_parts-all_parts,
}
use iolbox.Tacacs.Authen.{valid_authen_type}
use iolbox.Tacacs.Authen.RoundTrips.{require-some}
use iolbox.Tacacs.Requests.{
  length_fields, three_values, TacacsAcctRequest, encode_acct_request, decode_acct_request,
}
use iolbox.Tacacs.Requests.RoundTrips.{not-ltb, length_fields-some}

acct_parts : TacacsAcctRequest → List Text
acct_parts q = q.user ∷ q.port ∷ q.remote_addr ∷ q.args

-- Everything before the parts.
acct_head : TacacsAcctRequest → List ℕ
acct_head q =
    q.flags
    ∷ q.authen_method
    ∷ q.priv_lvl
    ∷ q.authen_type
    ∷ q.authen_service
    ∷ length q.user
    ∷ length q.port
    ∷ length q.remote_addr
    ∷ length q.args
    ∷ map length q.args

encode_acct_request-some :
    (q : TacacsAcctRequest) (body : List ℕ)
    → encode_acct_request q ≡ some body
    → body ≡ acct_head q ++ all_parts (acct_parts q)
unfolding encode_acct_request acct_head acct_parts
encode_acct_request-some q body e =
    let (few, e2) = require-some (not (ltb 255 (length q.args))) _ e in
    let (lengths, e3, e4) = >>=-eq-some (byte_lengths (acct_parts q)) _ e2 in
    let (shape, _) = byte_lengths-some (acct_parts q) lengths e3 in
    let (fields, e5, e6) = >>=-eq-some (length_fields (length q.args) lengths) _ e4 in
    let f =
      length_fields-some q.args q.user q.port q.remote_addr fields (not-ltb 255 (length q.args) few)
        (ap (length_fields (length q.args)) (sym shape) ∙ e5) in
    cc (e6, f)

acct_values :
    (q : TacacsAcctRequest) (body : List ℕ)
    → body ≡ acct_head q ++ all_parts (acct_parts q)
    → decode_request_parts body 5 8 9 (9 + length q.args) ≡ some (acct_parts q)
unfolding acct_head acct_parts read_lengths
acct_values q body e =
    let long : length body ≡ 9 + length q.args + length (all_parts (acct_parts q)) = rw e (
      omega (
        arith,
        length-append (acct_head q) (all_parts (acct_parts q)),
        length-map length q.args,
      )) in
    let first : List ℕ =
      q.flags
      ∷ q.authen_method
      ∷ q.priv_lvl
      ∷ q.authen_type
      ∷ q.authen_service
      ∷ length q.user
      ∷ length q.port
      ∷ length q.remote_addr
      ∷ length q.args
      ∷ [] in
    let lengths : read_lengths body 9 (length q.args) ≡ some (map length q.args) =
      subst (λ (k : ℕ). read_lengths body 9 k ≡ some (map length q.args)) (length-map length q.args)
        (rw e (read_lengths-append first (map length q.args) (all_parts (acct_parts q)))) in
    decode_request_parts-all_parts body (acct_head q) (acct_parts q) 5 8 9 (9 + length q.args)
      (length q.args) (length q.user ∷ length q.port ∷ length q.remote_addr ∷ [])
      (map length q.args) (rw e) (omega (arith, long)) (omega (arith, long)) (rw e) lengths refl
      (omega (arith, length-map length q.args)) e

decode_acct_request_parts :
    (q : TacacsAcctRequest) (body : List ℕ)
    → body ≡ acct_head q ++ all_parts (acct_parts q)
    → valid_authen_type q.authen_type ≡ true
    → decode_acct_request body ≡ some q
unfolding decode_acct_request acct_head three_values acct_parts
decode_acct_request_parts q body e t =
    let long : ltb (length body) 9 ≡ false = ge→ltb (length body) 9 (rw e (omega arith)) in
    let g0 : get_elem? body 0 ≡ some q.flags = rw e in
    let g1 : get_elem? body 1 ≡ some q.authen_method = rw e in
    let g2 : get_elem? body 2 ≡ some q.priv_lvl = rw e in
    let g3 : get_elem? body 3 ≡ some q.authen_type = rw e in
    let g4 : get_elem? body 4 ≡ some q.authen_service = rw e in
    let g8 : get_elem? body 8 ≡ some (length q.args) = rw e in
    rw (decode_acct_request, long, g0, g1, g2, g3, g4, t, g8, acct_values q body e)

-- An accounting request that is encoded is decoded to itself, with any number of arguments, when its
-- authentication type is one that the decoder takes, which the encoder does not test.
pub decode_acct_request-encode :
    (q : TacacsAcctRequest) (body : List ℕ)
    → valid_authen_type q.authen_type ≡ true
    → encode_acct_request q ≡ some body
    → decode_acct_request body ≡ some q
decode_acct_request-encode q body t e =
    decode_acct_request_parts q body (encode_acct_request-some q body e) t
