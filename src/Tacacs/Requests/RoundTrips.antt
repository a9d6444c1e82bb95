-- ===== src/Tacacs/Requests/RoundTrips.antt =====
-- tacacs_wire.go: the requests of authorization, encoded and decoded.
use iolbox.Common.{
  ℕ, ◌+◌, ◌%◌, ◌≤◌, ◌≡◌, refl, sym, ap, ◌∙◌, true, false, not, ltb, ge→ltb, >>=-eq-some, List, [],
  ◌∷◌, ◌++◌, map, length, get_elem?, length-append, length-map, some, arith,
}
use mathlib.Core.Path.{subst}
use iolbox.Common.Texts.{Text}
use iolbox.Tacacs.Fields.{byte_lengths, decode_request_parts, all_parts, read_lengths}
use iolbox.Tacacs.Fields.Cut.{
  byte_lengths-some, read_lengths-append, decode_request_parts-all_parts,
}
use iolbox.Tacacs.Authen.{valid_authen_type}
use iolbox.Tacacs.Authen.RoundTrips.{require-some}
use iolbox.Tacacs.Requests.{
  TacacsAuthorRequest, length_fields, encode_author_request, three_values, decode_author_request,
}

pub not-ltb : (a b : ℕ) → not (ltb a b) ≡ true → b ≤ a
not-ltb a b h = ground arith

author_parts : TacacsAuthorRequest → List Text
author_parts q = q.user ∷ q.port ∷ q.remote_addr ∷ q.args

-- Everything before the parts.
author_head : TacacsAuthorRequest → List ℕ
author_head q =
    q.authen_method
    ∷ q.priv_lvl
    ∷ q.authen_type
    ∷ q.authen_service
    ∷ length q.user
    ∷ length q.port
    ∷ length q.remote_addr
    ∷ length q.args
    ∷ map length q.args

pub length_fields-some :
    (q : List Text) (u p r : Text) (fields : List ℕ)
    → length q ≤ 255
    → length_fields (length q) (map length (u ∷ p ∷ r ∷ q)) ≡ some fields
    → fields ≡ length u ∷ length p ∷ length r ∷ length q ∷ map length q
unfolding length_fields
length_fields-some q u p r fields h e =
    let same : length q % 256 ≡ length q = omega (arith, h) in cc (e, same)

encode_author_request-some :
    (q : TacacsAuthorRequest) (body : List ℕ)
    → encode_author_request q ≡ some body
    → (valid_authen_type q.authen_type ≡ true)
      × (body ≡ author_head q ++ all_parts (author_parts q))
unfolding encode_author_request author_head author_parts
encode_author_request-some q body e =
    let (t, e1) = require-some (valid_authen_type q.authen_type) _ e in
    let (few, e2) = require-some (not (ltb 255 (length q.args))) _ e1 in
    let (lengths, e3, e4) = >>=-eq-some (byte_lengths (author_parts q)) _ e2 in
    let (shape, _) = byte_lengths-some (author_parts q) lengths e3 in
    let (fields, e5, e6) = >>=-eq-some (length_fields (length q.args) lengths) _ e4 in
    let f =
      length_fields-some q.args q.user q.port q.remote_addr fields (not-ltb 255 (length q.args) few)
        (ap (length_fields (length q.args)) (sym shape) ∙ e5) in
    (t, cc (e6, f))

author_values :
    (q : TacacsAuthorRequest) (body : List ℕ)
    → body ≡ author_head q ++ all_parts (author_parts q)
    → decode_request_parts body 4 7 8 (8 + length q.args) ≡ some (author_parts q)
unfolding author_head author_parts read_lengths
author_values q body e =
    let long : length body ≡ 8 + length q.args + length (all_parts (author_parts q)) = rw e (
      omega (
        arith,
        length-append (author_head q) (all_parts (author_parts q)),
        length-map length q.args,
      )) in
    let first : List ℕ =
      q.authen_method
      ∷ q.priv_lvl
      ∷ q.authen_type
      ∷ q.authen_service
      ∷ length q.user
      ∷ length q.port
      ∷ length q.remote_addr
      ∷ length q.args
      ∷ [] in
    let lengths : read_lengths body 8 (length q.args) ≡ some (map length q.args) =
      subst (λ (k : ℕ). read_lengths body 8 k ≡ some (map length q.args)) (length-map length q.args)
        (rw e (read_lengths-append first (map length q.args) (all_parts (author_parts q)))) in
    decode_request_parts-all_parts body (author_head q) (author_parts q) 4 7 8 (8 + length q.args)
      (length q.args) (length q.user ∷ length q.port ∷ length q.remote_addr ∷ [])
      (map length q.args) (rw e) (omega (arith, long)) (omega (arith, long)) (rw e) lengths refl
      (omega (arith, length-map length q.args)) e

decode_author_request_parts :
    (q : TacacsAuthorRequest) (body : List ℕ)
    → body ≡ author_head q ++ all_parts (author_parts q)
    → valid_authen_type q.authen_type ≡ true
    → decode_author_request body ≡ some q
unfolding decode_author_request author_head three_values author_parts
decode_author_request_parts q body e t =
    let long : ltb (length body) 8 ≡ false = ge→ltb (length body) 8 (rw e (omega arith)) in
    let g0 : get_elem? body 0 ≡ some q.authen_method = rw e in
    let g1 : get_elem? body 1 ≡ some q.priv_lvl = rw e in
    let g2 : get_elem? body 2 ≡ some q.authen_type = rw e in
    let g3 : get_elem? body 3 ≡ some q.authen_service = rw e in
    let g7 : get_elem? body 7 ≡ some (length q.args) = rw e in
    rw (decode_author_request, long, g0, g1, g2, g3, t, g7, author_values q body e)

-- The request for an authorization that is encoded is decoded to itself, with any number of arguments.
pub decode_author_request-encode :
    (q : TacacsAuthorRequest) (body : List ℕ)
    → encode_author_request q ≡ some body
    → decode_author_request body ≡ some q
decode_author_request-encode q body e =
    let (t, p) = encode_author_request-some q body e in decode_author_request_parts q body p t
