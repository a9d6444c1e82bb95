-- ===== src/Radius.antt =====
-- runtime/files/tools/packs/aaa/gui/radius.go: the RADIUS server of the lab's AAA tool (RFC 2865). A
-- string is its bytes. MD5, HMAC-MD5 and the lower case of a trimmed text are parameters. Packets has
-- the codec, Attributes is about it, Password about the hidden password, Access about a whole request.
pub mod Packets
pub mod Attributes
pub mod Password
pub mod Access
pub mod Attempts
pub mod Signature
mod Runs
use iolbox.Common.{
  ℕ, zero, suc, ◌+◌, ◌-◌, ◌*◌, ◌/◌, ◌%◌, Bool, true, false, not, ◌&&◌, ◌||◌, ◌==◌, ltb,
  if◌then◌else◌, List, [], ◌∷◌, ◌++◌, length, take, drop, Option, none, some,
}
use iolbox.Common.Bytes.{be16, bytes16, bytes32, zeros, copy_at}
use iolbox.Common.Ints.{ℤ, pos, negsuc}
use iolbox.Common.Texts.{Text, codes, eq_text}
use iolbox.Netmap.Names.{decimal}
use iolbox.Radius.Packets.{
  Parsed, ParseError, RadiusAttribute, RadiusPacket, attr_message_auth, attr_reply_message,
  attr_service_type, attr_user_name, attr_user_password, attr_vendor_specific, attribute,
  attribute_value, encode_attributes, err, ok, parse_radius_packet, radius_access_accept,
  radius_access_reject, radius_access_request,
}
use iolbox.Tacacs.{xor_with, is_empty}

-- `trimZeroPadding`: zeros at the end go.
pub trim_zero_padding : List ℕ → List ℕ
trim_zero_padding [] = []
trim_zero_padding (b ∷ bytes) =
    let rest = trim_zero_padding bytes in if is_empty rest && b == 0 then [] else b ∷ rest

pub record User : Type 0 where
  pub username : Text
  pub password : Text
  pub service : Text
  pub tacacs_service : Text
  pub priv_lvl : ℤ

-- The fields that the two servers read.
pub record Config : Type 0 where
  pub shared_secret : Text
  pub tacacs_key : Text
  pub users : List User

pub data AuthMessage : Type 0 where
  malformed_packet : ParseError → AuthMessage
  unsupported_code no_shared_secret invalid_message_authenticator : AuthMessage
  invalid_user_password access_accept invalid_credentials : AuthMessage

pub record AuthAttempt : Type 0 where
  pub user : Text
  pub accepted : Bool
  pub message : AuthMessage

-- `fmt.Sprintf("shell:priv-lvl=%d", user.PrivLvl)` behind the vendor's header, if the level is above 0.
pub priv_attributes : ℤ → List RadiusAttribute
priv_attributes (negsuc n) = []
priv_attributes (pos zero) = []
priv_attributes (pos (suc n)) =
    let value = codes "shell:priv-lvl=" ++ decimal (suc n) in
    (record {
      typ = attr_vendor_specific;
      value = bytes32 9 ++ (1 ∷ ((2 + length value) % 256) ∷ value);
    })
    ∷ []

abbrev pub prepend : List ℕ → Option (List ℕ × List ℕ) → Option (List ℕ × List ℕ)
prepend front none = none
prepend front (some (zeroed, found)) = some (front ++ zeroed, found)

-- The attributes behind `offset`, with those of the message authenticator set to zero, and its last
-- value. A byte alone at the end is read past, but parseRadiusPacket has refused it.
pub scan_message_auth : ℕ → List ℕ → List ℕ → Option (List ℕ × List ℕ)
scan_message_auth zero bytes expected = some ([], expected)
scan_message_auth (suc fuel) [] expected = some ([], expected)
scan_message_auth (suc fuel) (t ∷ []) expected = none
scan_message_auth (suc fuel) (t ∷ n ∷ bytes) expected =
    let is_auth = t == attr_message_auth in
    let value = if is_auth then zeros 16 else take (n - 2) bytes in
    let rest =
      scan_message_auth fuel (drop (n - 2) bytes) (if is_auth then take 16 bytes else expected) in
    if ltb n 2 || ltb (2 + length bytes) n
    then none
    else if is_auth && not (n == 18)
    then none
    else prepend (t ∷ n ∷ value) rest

abbrev pub is_valid_ciphertext : List ℕ → Bool
is_valid_ciphertext ciphertext =
    not (is_empty ciphertext) && length ciphertext % 16 == 0 && not (ltb 128 (length ciphertext))

-- `authenticator == [16]byte{}`
pub is_zero : List ℕ → Bool
is_zero [] = true
is_zero (b ∷ bytes) = b == 0 && is_zero bytes

-- The loop over the users of the configuration.
pub find_user : List User → Text → Text → Option User
find_user [] name password = none
find_user (u ∷ users) name password =
    if not (eq_text u.username name) || not (eq_text u.password password)
    then find_user users name password
    else some u

abbrev pub reply_attributes : Option (List RadiusAttribute) → List RadiusAttribute
reply_attributes none = record { typ = attr_reply_message; value = codes "Access-Reject" } ∷ []
reply_attributes (some attrs) = attrs

module _ (md5 : List ℕ → List ℕ) where
  -- The loop of decodeUserPassword: each block is hidden by a digest over the one before. Each round takes
  -- 16 bytes, so fuel for each byte is enough.
  pub decode_blocks : ℕ → List ℕ → List ℕ → List ℕ → List ℕ
  decode_blocks zero secret previous ciphertext = []
  decode_blocks (suc fuel) secret previous [] = []
  decode_blocks (suc fuel) secret previous (b ∷ ciphertext) =
      let block = take 16 (b ∷ ciphertext) in
      xor_with block (md5 (secret ++ previous))
      ++ decode_blocks fuel secret block (drop 16 (b ∷ ciphertext))

  -- `none` is the error.
  pub decode_user_password : List ℕ → List ℕ → List ℕ → Option Text
  unfolding decode_blocks
  decode_user_password ciphertext authenticator secret =
      if is_valid_ciphertext ciphertext
      then some
          (trim_zero_padding (decode_blocks (length ciphertext) secret authenticator ciphertext))
      else none

  pub encode_blocks : ℕ → List ℕ → List ℕ → List ℕ → List ℕ
  encode_blocks zero secret previous padded = []
  encode_blocks (suc fuel) secret previous [] = []
  encode_blocks (suc fuel) secret previous (b ∷ padded) =
      let block = xor_with (take 16 (b ∷ padded)) (md5 (secret ++ previous)) in
      block ++ encode_blocks fuel secret block (drop 16 (b ∷ padded))

  pub encode_user_password : Text → List ℕ → List ℕ → List ℕ
  unfolding encode_blocks
  encode_user_password password authenticator secret =
      let n = (length password / 16 + 1) * 16 in
      let padded = password ++ zeros (n - length password) in
      encode_blocks n secret authenticator padded

  -- `random` is what crypto/rand gives for an authenticator of zeros.
  pub build_access_request : List ℕ → ℕ → List ℕ → Text → Text → Text → List ℕ
  unfolding encode_attributes encode_user_password
  build_access_request random identifier given name password secret =
      let authenticator = if is_zero given then random else given in
      let attrs = encode_attributes (
        record { typ = attr_user_name; value = name }
        ∷ record {
          typ = attr_user_password;
          value = encode_user_password password authenticator secret;
        }
        ∷ []) in
      (radius_access_request ∷ identifier ∷ bytes16 (20 + length attrs)) ++ (authenticator ++ attrs)

  -- A nil list of attributes is `none`.
  pub response_for : RadiusPacket → ℕ → Option (List RadiusAttribute) → List ℕ → List ℕ
  unfolding encode_attributes
  response_for request code attrs secret =
      let encoded = encode_attributes (reply_attributes attrs) in
      let head = code ∷ request.identifier ∷ bytes16 (20 + length encoded) in
      let digest = md5 (head ++ (request.authenticator ++ (encoded ++ secret))) in
      copy_at (head ++ (request.authenticator ++ encoded)) 4 (take 16 digest)

module _ (md5 : List ℕ → List ℕ) (hmac : List ℕ → List ℕ → List ℕ) (fold : Text → Text) where
  -- `fold` is ToLower of TrimSpace.
  pub service_type : Text → ℕ
  service_type service =
      let s = fold service in
      if eq_text s (codes "admin") || eq_text s (codes "administrative")
      then 6
      else if eq_text s (codes "nas-prompt")
      then 7
      else 1

  pub accept_attributes : User → List RadiusAttribute
  unfolding service_type priv_attributes
  accept_attributes user =
      record { typ = attr_service_type; value = bytes32 (service_type user.service) }
      ∷ priv_attributes user.priv_lvl

  abbrev pub agrees : List ℕ → List ℕ → Option (List ℕ × List ℕ) → Bool
  agrees secret head none = false
  agrees secret head (some (zeroed, expected)) =
      length expected == 16 && eq_text expected (hmac secret (head ++ zeroed))

  -- `n` is the length field.
  abbrev pub verify_prefix : List ℕ → List ℕ → ℕ → Bool
  verify_prefix packet secret n =
      let whole = take n packet in
      if ltb n 20 || ltb (length packet) n
      then false
      else agrees secret (take 20 whole)
          (scan_message_auth (length (drop 20 whole)) (drop 20 whole) [])

  pub verify_message_authenticator : List ℕ → List ℕ → Bool
  unfolding scan_message_auth
  verify_message_authenticator (code ∷ id ∷ hi ∷ lo ∷ bytes) secret =
      let packet = code ∷ id ∷ hi ∷ lo ∷ bytes in
      if ltb (length packet) 20 then false else verify_prefix packet secret (be16 hi lo)
  verify_message_authenticator _ secret = false

  -- The reply to a user with the attempt, by what the loop over the users finds.
  pub answer_for : RadiusPacket → List ℕ → Text → Option User → Option (List ℕ) × AuthAttempt
  unfolding response_for accept_attributes
  answer_for packet secret name none = (
    some (response_for md5 packet radius_access_reject none secret),
    record { user = name; accepted = false; message = invalid_credentials },
  )
  answer_for packet secret name (some u) = (
    some (response_for md5 packet radius_access_accept (some (accept_attributes u)) secret),
    record { user = name; accepted = true; message = access_accept },
  )

  abbrev rejected : RadiusPacket → List ℕ → Text → AuthMessage → Option (List ℕ) × AuthAttempt
  rejected packet secret name message = (
    some (response_for md5 packet radius_access_reject none secret),
    record { user = name; accepted = false; message = message },
  )

  abbrev checked_password :
      Config → RadiusPacket → Text → Option Text → Option (List ℕ) × AuthAttempt
  checked_password cfg packet name none =
      rejected packet cfg.shared_secret name invalid_user_password
  checked_password cfg packet name (some password) =
      answer_for packet cfg.shared_secret name (find_user cfg.users name password)

  -- A request without a message authenticator goes on, with a warning that a later message replaces.
  abbrev is_trusted : List ℕ → Text → Option RadiusAttribute → Bool
  is_trusted packet_bytes secret none = true
  is_trusted packet_bytes secret (some a) =
      length a.value == 16 && verify_message_authenticator packet_bytes secret

  -- Behind the parser.
  pub evaluate_packet : List ℕ → Config → RadiusPacket → Option (List ℕ) × AuthAttempt
  unfolding attribute attribute_value verify_message_authenticator decode_user_password answer_for
      response_for find_user
  evaluate_packet packet_bytes cfg packet =
      let name = attribute_value packet.attributes attr_user_name in
      let hidden = attribute_value packet.attributes attr_user_password in
      let refused : Option (List ℕ) × AuthAttempt =
        (none, record { user = name; accepted = false; message = unsupported_code }) in
      if not (packet.code == radius_access_request)
      then refused
      else if is_empty cfg.shared_secret
      then rejected packet cfg.shared_secret name no_shared_secret
      else if not (
          is_trusted packet_bytes cfg.shared_secret (attribute packet.attributes attr_message_auth))
      then rejected packet cfg.shared_secret name invalid_message_authenticator
      else checked_password cfg packet name
          (decode_user_password md5 hidden packet.authenticator cfg.shared_secret)

  abbrev pub evaluated : List ℕ → Config → Parsed RadiusPacket → Option (List ℕ) × AuthAttempt
  evaluated packet_bytes cfg (err e) =
      (none, record { user = []; accepted = false; message = malformed_packet e })
  evaluated packet_bytes cfg (ok packet) = evaluate_packet packet_bytes cfg packet

  -- The response, if there is one, and the attempt.
  pub evaluate_access_request : List ℕ → Config → Option (List ℕ) × AuthAttempt
  unfolding parse_radius_packet evaluate_packet
  evaluate_access_request packet_bytes cfg =
      evaluated packet_bytes cfg (parse_radius_packet packet_bytes)

-- An attempt as it is kept, with the time and the sender.
pub record LoggedAttempt : Type 0 where
  pub at : ℕ
  pub remote : Text
  pub attempt : AuthAttempt

pub record AttemptRing : Type 0 where
  pub items : List LoggedAttempt
  pub max : ℕ

pub new_ring : ℕ → AttemptRing
new_ring max = record { items = []; max = if ltb max 1 then 100 else max }

pub add : AttemptRing → LoggedAttempt → AttemptRing
add r item =
    let items = r.items ++ (item ∷ []) in
    record r {
      items = if ltb r.max (length items) then drop (length items - r.max) items else items;
    }

module _ (md5 : List ℕ → List ℕ) (hmac : List ℕ → List ℕ → List ℕ) (fold : Text → Text) where
  -- One datagram, with the time and the sender: the ring after it, and the response.
  pub handle_packet : Config → AttemptRing → ℕ × Text × List ℕ → AttemptRing × Option (List ℕ)
  unfolding evaluate_access_request add
  handle_packet cfg r (now, remote, packet_bytes) =
      let (response, attempt) = evaluate_access_request md5 hmac fold packet_bytes cfg in
      (add r (record { at = now; remote = remote; attempt = attempt }), response)
