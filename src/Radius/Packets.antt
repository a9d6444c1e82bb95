-- ===== src/Radius/Packets.antt =====
-- radius.go: packets and their attributes, parsed and encoded.
use iolbox.Common.{
  ℕ, zero, suc, ◌+◌, ◌-◌, ◌%◌, ◌||◌, ◌==◌, ltb, if◌then◌else◌, List, [], ◌∷◌, ◌++◌, length, take,
  drop, Option, none, some,
}
use iolbox.Common.Bytes.{be16}

abbrev pub radius_access_request : ℕ
radius_access_request = 1

abbrev pub radius_access_accept : ℕ
radius_access_accept = 2

abbrev pub radius_access_reject : ℕ
radius_access_reject = 3

abbrev pub attr_user_name : ℕ
attr_user_name = 1

abbrev pub attr_user_password : ℕ
attr_user_password = 2

abbrev pub attr_service_type : ℕ
attr_service_type = 6

abbrev pub attr_reply_message : ℕ
attr_reply_message = 18

abbrev pub attr_vendor_specific : ℕ
attr_vendor_specific = 26

abbrev pub attr_message_auth : ℕ
attr_message_auth = 80

pub record RadiusAttribute : Type 0 where
  pub typ : ℕ
  pub value : List ℕ

pub record RadiusPacket : Type 0 where
  pub code : ℕ
  pub identifier : ℕ
  pub authenticator : List ℕ
  pub attributes : List RadiusAttribute

pub data ParseError : Type 0 where
  short_packet bad_packet_length truncated_header bad_attribute_length : ParseError

pub data Parsed (A : Type 0) : Type 0 where
  ok : A → Parsed A
  err : ParseError → Parsed A

abbrev with_attribute :
    RadiusAttribute → Parsed (List RadiusAttribute) → Parsed (List RadiusAttribute)
with_attribute a (ok attrs) = ok (a ∷ attrs)
with_attribute a (err e) = err e

-- The loop of parseRadiusPacket over `data[offset:length]`. An attribute takes two bytes at least, so
-- fuel for each byte is enough.
unfoldable pub parse_attributes : ℕ → List ℕ → Parsed (List RadiusAttribute)
parse_attributes zero bytes = ok []
parse_attributes (suc fuel) [] = ok []
parse_attributes (suc fuel) (t ∷ []) = err truncated_header
parse_attributes (suc fuel) (t ∷ n ∷ bytes) =
    let rest = parse_attributes fuel (drop (n - 2) bytes) in
    if ltb n 2 || ltb (2 + length bytes) n
    then err bad_attribute_length
    else with_attribute (record { typ = t; value = take (n - 2) bytes }) rest

abbrev packet_of : ℕ → ℕ → List ℕ → Parsed (List RadiusAttribute) → Parsed RadiusPacket
packet_of code id auth (ok attrs) =
    ok (record { code = code; identifier = id; authenticator = auth; attributes = attrs })
packet_of code id auth (err e) = err e

-- Behind the test of 20 bytes; `bytes` is `data[4:]`.
unfoldable pub parse_header : List ℕ → Parsed RadiusPacket
unfolding parse_attributes
parse_header (code ∷ id ∷ hi ∷ lo ∷ bytes) =
    let n = be16 hi lo in
    let attrs = take (n - 20) (drop 16 bytes) in
    if ltb n 20 || ltb (4 + length bytes) n
    then err bad_packet_length
    else packet_of code id (take 16 bytes) (parse_attributes (length attrs) attrs)
parse_header _ = err short_packet

unfoldable pub parse_radius_packet : List ℕ → Parsed RadiusPacket
unfolding parse_header
parse_radius_packet packet =
    if ltb (length packet) 20 then err short_packet else parse_header packet

unfoldable pub attribute : List RadiusAttribute → ℕ → Option RadiusAttribute
attribute [] typ = none
attribute (a ∷ attrs) typ = if a.typ == typ then some a else attribute attrs typ

abbrev value_of : Option RadiusAttribute → List ℕ
value_of none = []
value_of (some a) = a.value

unfoldable pub attribute_value : List RadiusAttribute → ℕ → List ℕ
unfolding attribute
attribute_value attrs typ = value_of (attribute attrs typ)

unfoldable pub encode_attributes : List RadiusAttribute → List ℕ
encode_attributes [] = []
encode_attributes (a ∷ attrs) =
    let out = encode_attributes attrs in
    if ltb 253 (length a.value)
    then out
    else (a.typ ∷ ((length a.value + 2) % 256) ∷ a.value) ++ out
