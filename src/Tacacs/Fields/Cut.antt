-- ===== src/Tacacs/Fields/Cut.antt =====
-- tacacs_wire.go: fields that are written behind one another are cut apart again.
use iolbox.Common.{
  ℕ, ◌+◌, ◌-◌, ◌*◌, ◌%◌, ◌≤◌, ◌<◌, ◌≡◌, refl, sym, ap, ◌∙◌, ltb, ==_refl, ==_ne, ge→ltb,
  if_not-some, >>=-eq-some, List, [], ◌∷◌, ◌++◌, map, length, get_elem?, take, drop, length-append,
  append-nil, append_assoc, take-length-append, drop-length-append, some, All, arith,
}
use iolbox.Common.Texts.{Text}
use iolbox.Tacacs.Fields.{
  byte_lengths, field_length, cut_fields, read_lengths, cut_lengths, all_parts, consumed,
  decode_fixed_length_strings, decode_request_parts,
}

pub byte_lengths-some :
    (values : List Text) (lengths : List ℕ)
    → byte_lengths values ≡ some lengths
    → (lengths ≡ map length values) × All (λ v. length v ≤ 255) values
unfolding byte_lengths
byte_lengths-some [] lengths e = (cc e, tt)
byte_lengths-some (v ∷ values) lengths e =
    let (fits, e1) = if_not-some (ltb 255 (length v)) e in
    let (rest, e2, e3) = >>=-eq-some (byte_lengths values) _ e1 in
    let (shape, all) = byte_lengths-some values rest e2 in
    let same : length v % 256 ≡ length v = ground arith in
    (cc (e3, same, shape), (ground arith, all))

-- A body that is read up to `offset`, with the fields still to come.
module _ (body done : List ℕ) where
  field_there :
      (v : Text) (values : List Text)
      → body ≡ done ++ all_parts (v ∷ values)
      → (take (length v) (drop (length done) body) ≡ v) × (length done + length v ≤ length body)
  unfolding all_parts
  field_there v values e = rw e (
    ap (take (length v)) (drop-length-append done (v ++ all_parts values))
        ∙ take-length-append v (all_parts values),
    omega (arith, length-append done (v ++ all_parts values), length-append v (all_parts values)),
  )

pub cut_lengths-all_parts :
    (body done : List ℕ) (values : List Text)
    → body ≡ done ++ all_parts values
    → cut_lengths body (map length values) (length done) ≡ some (values, length body)
unfolding cut_lengths all_parts
cut_lengths-all_parts body done [] e = rw (e, append-nil done)
cut_lengths-all_parts body done (v ∷ values) e =
    let (here, room) = field_there body done v values e in
    let fits = ge→ltb (length body - length done) (length v) (omega (arith, room)) in
    let longer = length-append done v in
    let rest =
      cut_lengths-all_parts body (done ++ v) values
        (e ∙ sym (append_assoc done v (all_parts values))) in
    rw (fits, here, ← longer, rest)

-- The lengths stand where they are read.
abbrev pub LengthsAt : List ℕ → ℕ → ℕ → List Text → Type 0
LengthsAt body width start [] = Unit {0}
LengthsAt body width start (v ∷ values) =
    (field_length body width start ≡ some (length v)) × LengthsAt body width (start + width) values

pub cut_fields-all_parts :
    (body done : List ℕ) (width start : ℕ) (values : List Text)
    → body ≡ done ++ all_parts values
    → LengthsAt body width start values
    → cut_fields body width start (length values) (length done) ≡ some (values, length body)
unfolding cut_fields all_parts
cut_fields-all_parts body done width start [] e h = rw (e, append-nil done)
cut_fields-all_parts body done width start (v ∷ values) e h =
    let (here, room) = field_there body done v values e in
    let fits = ge→ltb (length body - length done) (length v) (omega (arith, room)) in
    let longer = length-append done v in
    let rest =
      cut_fields-all_parts body (done ++ v) width (start + width) values
        (e ∙ sym (append_assoc done v (all_parts values))) h.1 in
    rw (h.0, fits, here, ← longer, rest)

get_elem?-append_here :
    (pre : List ℕ) (n : ℕ) (post : List ℕ) → get_elem? (pre ++ (n ∷ post)) (length pre) ≡ some n
get_elem?-append_here [] n post = refl
get_elem?-append_here (x ∷ pre) n post = get_elem?-append_here pre n post

-- Lengths of one byte behind the first bytes of a body.
pub read_lengths-append :
    (pre lengths post : List ℕ)
    → read_lengths (pre ++ (lengths ++ post)) (length pre) (length lengths) ≡ some lengths
unfolding read_lengths
read_lengths-append pre [] post = refl
read_lengths-append pre (n ∷ lengths) post =
    let rest : read_lengths (pre ++ (n ∷ (lengths ++ post))) (length pre + 1) (length lengths)
        ≡ some lengths =
      rw (← length-append pre (n ∷ []), ← append_assoc pre (n ∷ []) (lengths ++ post))
        (read_lengths-append (pre ++ (n ∷ [])) lengths post) in
    rw (get_elem?-append_here pre n (lengths ++ post), rest)

-- Fields behind a header that holds their lengths.
pub decode_fixed_length_strings-all_parts :
    (pre : List ℕ) (width start : ℕ) (values : List Text)
    → 0 < width
    → 0 < length values
    → start + length values * width ≤ length pre
    → LengthsAt (pre ++ all_parts values) width start values
    → decode_fixed_length_strings (pre ++ all_parts values) start width (length values) (length pre)
      ≡ some values
unfolding decode_fixed_length_strings consumed
decode_fixed_length_strings-all_parts pre width start values w c room h =
    let long = length-append pre (all_parts values) in
    let cut = cut_fields-all_parts (pre ++ all_parts values) pre width start values refl h in
    rw (
      ==_ne width 0 (omega arith),
      ==_ne (length values) 0 (omega arith),
      ge→ltb (length (pre ++ all_parts values)) (start + length values * width)
          (omega (arith, room, long)),
      ge→ltb (length pre) (start + length values * width) room,
      ge→ltb (length (pre ++ all_parts values)) (length pre) (omega (arith, long)),
      cut,
      ==_refl (length (pre ++ all_parts values)),
    )

pub two_parts : (a b : Text) → all_parts (a ∷ b ∷ []) ≡ a ++ b
unfolding all_parts
two_parts a b = ap (λ (t : Text). a ++ t) (append-nil b)

-- The parts of a request, whose lengths are read from two places.
module _ (body done : List ℕ) (values : List Text) (base count_at args_at data_at n : ℕ)
    (base_lengths arg_lengths : List ℕ) where
  pub decode_request_parts-all_parts :
      get_elem? body count_at ≡ some n
      → base + 3 ≤ length body
      → args_at + n ≤ length body
      → read_lengths body base 3 ≡ some base_lengths
      → read_lengths body args_at n ≡ some arg_lengths
      → base_lengths ++ arg_lengths ≡ map length values
      → length done ≡ data_at
      → body ≡ done ++ all_parts values
      → decode_request_parts body base count_at args_at data_at ≡ some values
  unfolding decode_request_parts consumed
  decode_request_parts-all_parts count room1 room2 e1 e2 shape at e =
      let room3 : data_at ≤ length body =
        rw e (omega (arith, at, length-append done (all_parts values))) in
      let cut : cut_lengths body (base_lengths ++ arg_lengths) data_at
          ≡ some (values, length body) =
        rw (shape, ← at) (cut_lengths-all_parts body done values e) in
      rw (
        decode_request_parts,
        count,
        ge→ltb (length body) (base + 3) room1,
        ge→ltb (length body) (args_at + n) room2,
        ge→ltb (length body) data_at room3,
        e1,
        e2,
        cut,
        ==_refl (length body),
      )
