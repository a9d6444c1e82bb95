-- ===== src/Radius/Access.antt =====
-- radius.go: a whole request, and the reply to it.
use iolbox.Common.{
  ℕ, suc, ◌+◌, ◌≤◌, ◌≡◌, refl, sym, ap, ◌∙◌, ◌⊎◌, inl, inr, true, false, not, ◌||◌, if◌then◌else◌,
  List, [], ◌∷◌, ◌++◌, Option, none, some, length, take, drop, get_elem?, All, length-append,
  append-nil, take_front, drop_front, if_lem, arith,
}
use mathlib.Core.Path.{subst}
use iolbox.Common.Bytes.{IsByte, bytes16, copy_at, copy_at-nil}
use iolbox.Common.Texts.{Text, eq_text, eq_text_refl, eq_text-eq}
use iolbox.Tacacs.{is_empty}
use iolbox.Tacacs.Pad.{IsDigest}
use iolbox.Radius.Packets.{
  RadiusAttribute, RadiusPacket, attribute, attribute_value, encode_attributes,
  radius_access_request, radius_access_accept, radius_access_reject, attr_user_name,
  attr_user_password,
}
use iolbox.Radius.{
  User, Config, AuthAttempt, is_zero, find_user, response_for, reply_attributes,
  build_access_request, encode_user_password, accept_attributes, answer_for, evaluate_packet,
  evaluate_access_request, evaluated,
}
use iolbox.Radius.Attributes.{
  parse_radius_packet-bytes, length-encode_attributes, encode_attributes-nil,
}
use iolbox.Radius.Password.{EndsNonZero, decode_user_password-encode, length-encode_user_password}

-- Whether the name and the password are those of the user.
abbrev pub Knows : Text → Text → User → Type 0
Knows name password u = (u.username ≡ name) × (u.password ≡ password)

-- The loop finds a user of the list with both, or there is none.
abbrev Found : Text → Text → List User → Option User → Type 0
Found name password users found =
    ((i : ℕ) × (u : User) × (get_elem? users i ≡ some u) × Knows name password u × (found ≡ some u))
    ⊎ (All (λ (u : User). ¬ (Knows name password u)) users × (found ≡ none))

Found-skip :
    (u : User) (users : List User) (name password : Text) (found : Option User)
    → ¬ (Knows name password u)
    → Found name password users found
    → Found name password (u ∷ users) found
Found-skip u users name password found other (inl (i, v, at, knows, e)) =
    inl (suc i, v, at, knows, e)
Found-skip u users name password found other (inr (nobody, e)) = inr ((other, nobody), e)

find_user-Found :
    (users : List User) (name password : Text)
    → Found name password users (find_user users name password)
unfolding find_user
find_user-Found [] name password = inr (tt, refl)
find_user-Found (u ∷ users) name password =
    let rest = find_user-Found users name password in
    let P = Found name password (u ∷ users) in
    if_lem P (not (eq_text u.username name) || not (eq_text u.password password))
      (λ other.
        Found-skip u users name password (find_user users name password)
          (λ (n, p). ground (arith, other, n, p, eq_text_refl name, eq_text_refl password)) rest)
      (λ same. inl (
        0,
        u,
        refl,
        ground (arith, same, eq_text-eq u.username name, eq_text-eq u.password password),
        refl,
      ))

copy_over :
    (old new rest : List ℕ) → length old ≡ length new → copy_at (old ++ rest) 0 new ≡ new ++ rest
copy_over [] [] rest h = copy_at-nil rest
copy_over [] (y ∷ new) rest h = absurd (omega (arith, h))
copy_over (x ∷ old) [] rest h = absurd (omega (arith, h))
copy_over (x ∷ old) (y ∷ new) rest h =
    ap (λ (l : List ℕ). y ∷ l) (copy_over old new rest (omega (arith, h)))

-- What a client of RFC 2865 checks of the reply to a request: the length, the identifier, and that the
-- authenticator is MD5 of the reply's head, the request's authenticator, the reply's attributes and
-- the secret. It holds of every reply, for any MD5 whose digests are 16 bytes.
pub response_for_lem :
    (md5 : List ℕ → List ℕ) (digest : IsDigest md5) (request : RadiusPacket) (code : ℕ)
    (attrs : Option (List RadiusAttribute)) (secret : List ℕ)
    → length request.authenticator ≡ 16
    → let r = response_for md5 request code attrs secret in
      (take 4 r ≡ code ∷ request.identifier ∷ bytes16 (length r))
      × (take 16 (drop 4 r) ≡ md5 (take 4 r ++ (request.authenticator ++ (drop 20 r ++ secret))))
      × (drop 20 r ≡ encode_attributes (reply_attributes attrs))
unfolding response_for IsDigest
response_for_lem md5 digest request code attrs secret sixteen =
    let E = encode_attributes (reply_attributes attrs) in
    let head = code ∷ request.identifier ∷ bytes16 (20 + length E) in
    let D = md5 (head ++ (request.authenticator ++ (E ++ secret))) in
    let long = (digest (head ++ (request.authenticator ++ (E ++ secret)))).0 in
    let r = response_for md5 request code attrs secret in
    let whole_digest : take 16 D ≡ D =
      ap (take 16) (sym (append-nil D)) ∙ take_front 16 D [] long in
    let whole : r ≡ head ++ (D ++ E) =
      ap (copy_at (head ++ (request.authenticator ++ E)) 4) whole_digest
      ∙ ap (λ (l : List ℕ). head ++ l)
          (copy_over request.authenticator D E (omega (arith, sixteen, long))) in
    let size : length r ≡ 20 + length E =
      ap length whole ∙ omega (arith, length-append D E, long) in
    let first : take 4 r ≡ head = ap (take 4) whole in
    let behind : drop 20 r ≡ E = ap (drop 20) whole ∙ drop_front 16 D E long in
    (
      first ∙ ap (λ (n : ℕ). code ∷ request.identifier ∷ bytes16 n) (sym size),
      ap (λ (l : List ℕ). take 16 (drop 4 l)) whole
          ∙ take_front 16 D E long
          ∙ (λ i. md5 (sym first i ++ (request.authenticator ++ (sym behind i ++ secret)))),
      behind,
    )

-- The packet that a client with this name and password sends.
abbrev pub sent_packet : (List ℕ → List ℕ) → ℕ → List ℕ → Text → Text → Text → RadiusPacket
sent_packet md5 id auth name password secret = record {
  code = radius_access_request;
  identifier = id;
  authenticator = auth;
  attributes =
      record { typ = attr_user_name; value = name }
      ∷ record { typ = attr_user_password; value = encode_user_password md5 password auth secret }
      ∷ [];
}

length-attributes :
    (name hidden : List ℕ)
    → length name ≤ 253
    → length hidden ≤ 253
    → length (
        encode_attributes (
          record { typ = attr_user_name; value = name }
          ∷ record { typ = attr_user_password; value = hidden }
          ∷ []))
      ≡ 4 + (length name + length hidden)
length-attributes name hidden a b = omega (
  arith,
  length-encode_attributes (record { typ = attr_user_name; value = name }) _ a,
  length-encode_attributes (record { typ = attr_user_password; value = hidden }) [] b,
  ap length encode_attributes-nil,
)

evaluate_sent :
    (md5 : List ℕ → List ℕ) (digest : IsDigest md5) (hmac : List ℕ → List ℕ → List ℕ)
    (fold : Text → Text) (packet_bytes : List ℕ) (cfg : Config) (id : ℕ) (auth : List ℕ)
    (name password : Text)
    → is_empty cfg.shared_secret ≡ false
    → length password ≤ 127
    → All IsByte password
    → EndsNonZero password
    → let packet = sent_packet md5 id auth name password cfg.shared_secret in
      evaluate_packet md5 hmac fold packet_bytes cfg packet
      ≡ answer_for md5 hmac fold packet cfg.shared_secret name (find_user cfg.users name password)
unfolding evaluate_packet attribute attribute_value
evaluate_sent md5 digest hmac fold packet_bytes cfg id auth name password keyed short b ends =
    let hidden = encode_user_password md5 password auth cfg.shared_secret in
    let plain =
      decode_user_password-encode md5 digest password auth cfg.shared_secret short b ends in
    rw (keyed, plain)

-- What the reply and the attempt say of the configuration.
abbrev pub Decided :
    (List ℕ → List ℕ)
    → (List ℕ → List ℕ → List ℕ)
    → (Text → Text)
    → Config
    → RadiusPacket
    → Text
    → Text
    → Option (List ℕ) × AuthAttempt
    → Type 0
Decided md5 hmac fold cfg packet name password (reply, attempt) =
    (attempt.user ≡ name)
    × (((i : ℕ) × (u : User) × (get_elem? cfg.users i ≡ some u)
          × Knows name password u
          × (attempt.accepted ≡ true)
          × (reply
              ≡ some (
                  response_for md5 packet radius_access_accept
                    (some (accept_attributes md5 hmac fold u)) cfg.shared_secret)))
        ⊎ (All (λ (u : User). ¬ (Knows name password u)) cfg.users
            × (attempt.accepted ≡ false)
            × (reply ≡ some (response_for md5 packet radius_access_reject none cfg.shared_secret))))

answer_for-Decided :
    (md5 : List ℕ → List ℕ) (hmac : List ℕ → List ℕ → List ℕ) (fold : Text → Text) (cfg : Config)
    (packet : RadiusPacket) (name password : Text) (found : Option User)
    → Found name password cfg.users found
    → Decided md5 hmac fold cfg packet name password
        (answer_for md5 hmac fold packet cfg.shared_secret name found)
unfolding answer_for
answer_for-Decided md5 hmac fold cfg packet name password none (inl (i, u, at, knows, e)) =
    absurd (cc e)
answer_for-Decided md5 hmac fold cfg packet name password none (inr (nobody, e)) =
    (refl, inr (nobody, refl, refl))
answer_for-Decided md5 hmac fold cfg packet name password (some v) (inl (i, u, at, knows, e)) =
    let same : v ≡ u = cc e in
    (
      refl,
      inl (
        i,
        v,
        at ∙ sym e,
        (
          ap (λ (x : User). x.username) same ∙ knows.0,
          ap (λ (x : User). x.password) same ∙ knows.1,
        ),
        refl,
        refl,
      ),
    )
answer_for-Decided md5 hmac fold cfg packet name password (some v) (inr (nobody, e)) = absurd (cc e)

-- A request with a name of at most 253 bytes and a password of at most 127 that does not end with NUL,
-- made with the server's secret, which is not empty. Either the configuration has a user with that name
-- and password, the attempt is accepted, and the reply is the acceptance with the attributes of such a
-- user; or it has none, the attempt is not accepted, and the reply is the rejection. MD5's digests are 16
-- bytes, and so are an authenticator and what replaces one of zeros.
pub evaluate_access_request-build :
    (md5 : List ℕ → List ℕ) (digest : IsDigest md5) (hmac : List ℕ → List ℕ → List ℕ)
    (fold : Text → Text) (cfg : Config) (random given : List ℕ) (id : ℕ) (name password : Text)
    → length random ≡ 16
    → length given ≡ 16
    → is_empty cfg.shared_secret ≡ false
    → length name ≤ 253
    → length password ≤ 127
    → All IsByte password
    → EndsNonZero password
    → let auth = if is_zero given then random else given in
      let packet = sent_packet md5 id auth name password cfg.shared_secret in
      let request = build_access_request md5 random id given name password cfg.shared_secret in
      Decided md5 hmac fold cfg packet name password
        (evaluate_access_request md5 hmac fold request cfg)
unfolding build_access_request evaluate_access_request
evaluate_access_request-build md5 digest hmac fold cfg random given id name password r16 g16 keyed
      short_name short b ends =
    let auth = if is_zero given then random else given in
    let sixteen : length auth ≡ 16 =
      if_lem (λ (l : List ℕ). length l ≡ 16) (is_zero given) (λ _. r16) (λ _. g16) in
    let packet = sent_packet md5 id auth name password cfg.shared_secret in
    let hidden = encode_user_password md5 password auth cfg.shared_secret in
    let fits = length-encode_user_password md5 digest password auth cfg.shared_secret short b in
    let size = length-attributes name hidden short_name (omega (arith, fits)) in
    let parsed =
      parse_radius_packet-bytes radius_access_request id auth packet.attributes sixteen
        (short_name, (omega (arith, fits), tt)) (omega (arith, size, fits)) in
    let request = build_access_request md5 random id given name password cfg.shared_secret in
    let outcome : evaluate_access_request md5 hmac fold request cfg
        ≡ answer_for md5 hmac fold packet cfg.shared_secret name
            (find_user cfg.users name password) =
      ap (evaluated md5 hmac fold request cfg) parsed
      ∙ evaluate_sent md5 digest hmac fold request cfg id auth name password keyed short b ends in
    subst (Decided md5 hmac fold cfg packet name password) (sym outcome) (
      answer_for-Decided md5 hmac fold cfg packet name password (find_user cfg.users name password)
        (find_user-Found cfg.users name password))
