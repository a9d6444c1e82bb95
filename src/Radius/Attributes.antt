-- ===== src/Radius/Attributes.antt =====
-- radius.go: attributes and packets, written and read back.
use iolbox.Common.{
  ℕ, zero, suc, ◌+◌, ◌-◌, ◌%◌, ◌≤◌, ◌<◌, ◌≡◌, refl, ge→ltb, List, [], ◌∷◌, ◌++◌, length, take, drop,
  All, length-append, take-length-append, drop-length-append, take_front, drop_front, take_all,
  arith,
}
use iolbox.Common.Bytes.{bytes16, bytes16_value}
use iolbox.Radius.Packets.{
  RadiusAttribute, ok, parse_attributes, parse_header, parse_radius_packet, encode_attributes,
}

abbrev pub Fits : RadiusAttribute → Type 0
Fits a = length a.value ≤ 253

pub encode_attributes-nil : encode_attributes [] ≡ []
unfolding encode_attributes
encode_attributes-nil = refl

pub length-encode_attributes :
    (a : RadiusAttribute) (attrs : List RadiusAttribute)
    → Fits a
    → length (encode_attributes (a ∷ attrs))
      ≡ 2 + (length a.value + length (encode_attributes attrs))
unfolding encode_attributes
length-encode_attributes a attrs fits =
    rw (ge→ltb 253 (length a.value) fits)
      (omega (arith, length-append a.value (encode_attributes attrs)))

pub parse_attributes-encode :
    (fuel : ℕ) (attrs : List RadiusAttribute)
    → All Fits attrs
    → length (encode_attributes attrs) ≤ fuel
    → parse_attributes fuel (encode_attributes attrs) ≡ ok attrs
unfolding parse_attributes encode_attributes
parse_attributes-encode zero [] fit enough = refl
parse_attributes-encode (suc fuel) [] fit enough = refl
parse_attributes-encode zero (a ∷ attrs) (fits, fit) enough =
    absurd (omega (arith, enough, length-encode_attributes a attrs fits))
parse_attributes-encode (suc fuel) (a ∷ attrs) (fits, fit) enough =
    let short = ge→ltb 253 (length a.value) fits in
    let out = encode_attributes attrs in
    let n : (length a.value + 2) % 256 ≡ suc (suc (length a.value)) = omega (arith, fits) in
    let L = length a.value in
    let two = ge→ltb (suc (suc L)) 2 (omega arith) in
    let inside =
      ge→ltb (2 + length (a.value ++ out)) (suc (suc L))
        (omega (arith, length-append a.value out)) in
    let value : suc (suc L) - 2 ≡ L = omega arith in
    let rest =
      parse_attributes-encode fuel attrs fit
        (omega (arith, enough, length-encode_attributes a attrs fits)) in
    rw (
      short,
      n,
      two,
      inside,
      value,
      take-length-append a.value out,
      drop-length-append a.value out,
      rest,
    )

-- The bytes of a packet with 16 bytes of authenticator.
pub parse_radius_packet-bytes :
    (code id : ℕ) (auth : List ℕ) (attrs : List RadiusAttribute)
    → length auth ≡ 16
    → All Fits attrs
    → 20 + length (encode_attributes attrs) < 65536
    → parse_radius_packet (
        (code ∷ id ∷ bytes16 (20 + length (encode_attributes attrs)))
        ++ (auth ++ encode_attributes attrs))
      ≡ ok (record { code = code; identifier = id; authenticator = auth; attributes = attrs })
unfolding parse_radius_packet parse_header
parse_radius_packet-bytes code id auth attrs sixteen fit small =
    let E = encode_attributes attrs in
    let both = length-append auth E in
    let long =
      ge→ltb (suc (suc (suc (suc (length (auth ++ E)))))) 20 (omega (arith, both, sixteen)) in
    let n = bytes16_value (20 + length E) small in
    let at_least = ge→ltb (20 + length E) 20 (omega arith) in
    let within = ge→ltb (4 + length (auth ++ E)) (20 + length E) (omega (arith, both, sixteen)) in
    let front : take 16 (auth ++ E) ≡ auth = take_front 16 auth E sixteen in
    let behind : drop 16 (auth ++ E) ≡ E = drop_front 16 auth E sixteen in
    let size : 20 + length E - 20 ≡ length E = omega arith in
    rw (
      long,
      n,
      at_least,
      within,
      front,
      behind,
      size,
      take_all E,
      parse_attributes-encode (length E) attrs fit (omega arith),
    )
