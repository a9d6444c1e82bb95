-- ===== src/Tacacs/Authen/RoundTrips.antt =====
-- tacacs_wire.go: the bodies of an authentication exchange, encoded and decoded.
use iolbox.Common.{
  ℕ, ◌≡◌, refl, Bool, true, false, ltb, ge→ltb, >>=-eq-some, List, [], ◌∷◌, ◌++◌, length, get_elem?,
  Option, some, ◌>>◌, arith,
}
use iolbox.Common.Texts.{Text}
use iolbox.Tacacs.Fields.{byte_lengths, decode_fixed_length_strings, all_parts, field_length}
use iolbox.Tacacs.Fields.Cut.{byte_lengths-some, decode_fixed_length_strings-all_parts}
use iolbox.Tacacs.Authen.{
  require, is_authen_action, valid_authen_type, TacacsAuthenStart, encode_authen_start, start_of,
  decode_authen_start,
}

pub require-some {ℓ} :
    {B : Type ℓ} (b : Bool) (m : Option B) {y : B}
    → (require b >> m) ≡ some y
    → (b ≡ true) × (m ≡ some y)
require-some true m e = (refl, e)
require-some false m e = cc e

-- A start as it is on the wire.
start_bytes : TacacsAuthenStart → List ℕ
start_bytes s =
    s.action
    ∷ s.priv_lvl
    ∷ s.authen_type
    ∷ s.authen_service
    ∷ length s.user
    ∷ length s.port
    ∷ length s.remote_addr
    ∷ length s.data_part
    ∷ []

start_strings : TacacsAuthenStart → List Text
start_strings s = s.user ∷ s.port ∷ s.remote_addr ∷ s.data_part ∷ []

start_values :
    (s : TacacsAuthenStart)
    → decode_fixed_length_strings (start_bytes s ++ all_parts (start_strings s)) 4 1 4 8
      ≡ some (start_strings s)
unfolding start_bytes start_strings field_length
start_values s =
    decode_fixed_length_strings-all_parts (start_bytes s) 1 4 (start_strings s) (omega arith)
      (omega arith) (omega arith) (refl, (refl, (refl, (refl, tt))))

decode_authen_start_parts :
    (s : TacacsAuthenStart) (body : List ℕ) (values : List Text)
    → body ≡ start_bytes s ++ all_parts values
    → is_authen_action s.action ≡ true
    → valid_authen_type s.authen_type ≡ true
    → decode_fixed_length_strings body 4 1 4 8 ≡ some values
    → decode_authen_start body ≡ start_of s.action s.priv_lvl s.authen_type s.authen_service values
unfolding decode_authen_start start_bytes
decode_authen_start_parts s body values e a t v =
    let long : ltb (length body) 8 ≡ false = ge→ltb (length body) 8 (rw e (omega arith)) in
    let g0 : get_elem? body 0 ≡ some s.action = rw e in
    let g1 : get_elem? body 1 ≡ some s.priv_lvl = rw e in
    let g2 : get_elem? body 2 ≡ some s.authen_type = rw e in
    let g3 : get_elem? body 3 ≡ some s.authen_service = rw e in
    rw (decode_authen_start, long, g0, g1, g2, g3, a, t, v)

-- What a start that is encoded says of its fields.
encode_authen_start-some :
    (s : TacacsAuthenStart) (body : List ℕ)
    → encode_authen_start s ≡ some body
    → (is_authen_action s.action ≡ true)
      × (valid_authen_type s.authen_type ≡ true)
      × (body ≡ start_bytes s ++ all_parts (start_strings s))
unfolding encode_authen_start start_bytes start_strings
encode_authen_start-some s body e =
    let (lengths, e1, e2) = >>=-eq-some (byte_lengths (start_strings s)) _ e in
    let (shape, _) = byte_lengths-some (start_strings s) lengths e1 in
    let (a, e3) = require-some (is_authen_action s.action) _ e2 in
    let (t, e4) = require-some (valid_authen_type s.authen_type) _ e3 in (a, t, cc (e4, shape))

-- The start of an authentication that is encoded is decoded to itself.
pub decode_authen_start-encode :
    (s : TacacsAuthenStart) (body : List ℕ)
    → encode_authen_start s ≡ some body
    → decode_authen_start body ≡ some s
unfolding start_of start_strings
decode_authen_start-encode s body e =
    let (a, t, p) = encode_authen_start-some s body e in
    decode_authen_start_parts s body (start_strings s) p a t (rw p (start_values s))
