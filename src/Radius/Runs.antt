-- ===== src/Radius/Runs.antt =====
-- radius.go: a request of a user that the configuration knows, with a digest that only counts.
use iolbox.Common.{
  ℕ, ◌≡◌, ◌↔◌, ◌%◌, refl, true, List, [], ◌∷◌, ◌++◌, none, length, replicate, take, drop, map,
  keep_last, arith,
}
use iolbox.Common.Bytes.{bytes16, zeros}
use iolbox.Common.Ints.{pos}
use iolbox.Common.Texts.{codes}
use iolbox.Tacacs.{xor_with}
use iolbox.Tacacs.Pad.{IsDigest}
use iolbox.Radius.Packets.{RadiusPacket, encode_attributes, RadiusAttribute, attr_user_name}
use iolbox.Radius.{
  trim_zero_padding, Config, response_for, reply_attributes, verify_message_authenticator,
  build_access_request, evaluate_access_request, is_zero,
}
use iolbox.Radius.{new_ring}
use iolbox.Radius.Attempts.{handle_all, logged, handle_all_lem}
use iolbox.Radius.Signature.{signed, wire, verify_message_authenticator-signed}
use iolbox.Radius.Access.{Decided, sent_packet, response_for_lem, evaluate_access_request-build}

abbrev counting : List ℕ → List ℕ
counting x = replicate 16 (length x % 256)

counting-IsDigest : IsDigest counting
unfolding IsDigest
counting-IsDigest x = (refl, omega arith)

abbrev sealed : List ℕ → List ℕ → List ℕ
sealed key x = counting (key ++ x)

abbrev config : Config
config = record {
  shared_secret = codes "labsecret";
  tacacs_key = [];
  users =
      record {
        username = codes "bob";
        password = codes "x";
        service = codes "admin";
        tacacs_service = [];
        priv_lvl = pos 15;
      }
      ∷ [];
}

abbrev auth : List ℕ
auth = replicate 16 9

-- The request as it goes over the wire, and what the server makes of it.
bob_accepted :
    (evaluate_access_request counting sealed
      (λ s. s)
      (build_access_request counting auth 7 auth (codes "bob") (codes "x") (codes "labsecret"))
      config).1.accepted
    ≡ true
unfolding evaluate_access_request build_access_request is_zero xor_with trim_zero_padding
bob_accepted = refl

evaluate_access_request-build_example :
    Decided counting sealed
      (λ s. s)
      config
      (sent_packet counting 7 auth (codes "bob") (codes "x") (codes "labsecret"))
      (codes "bob")
      (codes "x")
      (evaluate_access_request counting sealed
        (λ s. s)
        (build_access_request counting auth 7 auth (codes "bob") (codes "x") (codes "labsecret"))
        config)
unfolding is_zero
evaluate_access_request-build_example =
    evaluate_access_request-build counting counting-IsDigest sealed (λ s. s) config auth auth 7
      (codes "bob") (codes "x") refl refl refl (omega arith) (omega arith) (omega arith)
      (λ h. absurd (omega (arith, h)))

abbrev request : RadiusPacket
request = record { code = 1; identifier = 7; authenticator = auth; attributes = [] }

response_for_lem_example :
    let r = response_for counting request 3 none (codes "labsecret") in
    (take 4 r ≡ 3 ∷ 7 ∷ bytes16 (length r))
    × (take 16 (drop 4 r) ≡ counting (take 4 r ++ (auth ++ (drop 20 r ++ codes "labsecret"))))
    × (drop 20 r ≡ encode_attributes (reply_attributes none))
response_for_lem_example =
    response_for_lem counting counting-IsDigest request 3 none (codes "labsecret") refl

handle_all_lem_example :
    (handle_all counting sealed
      (λ s. s)
      config
      (new_ring 1)
      ((1, codes "10.0.0.1", []) ∷ (2, codes "10.0.0.2", 1 ∷ []) ∷ [])).items
    ≡ keep_last (new_ring 1).max (
        map
          (logged counting sealed (λ s. s) config)
          ((1, codes "10.0.0.1", []) ∷ (2, codes "10.0.0.2", 1 ∷ []) ∷ []))
handle_all_lem_example =
    handle_all_lem counting sealed (λ s. s) config 1
      ((1, codes "10.0.0.1", []) ∷ (2, codes "10.0.0.2", 1 ∷ []) ∷ [])

abbrev mac : List ℕ
mac = replicate 16 5

abbrev user_name : RadiusAttribute
user_name = record { typ = attr_user_name; value = codes "bob" }

verify_message_authenticator-signed_example :
    (verify_message_authenticator counting sealed
        (λ s. s)
        (wire 1 7 auth (signed (user_name ∷ []) mac []))
        (codes "labsecret")
      ≡ true)
    ↔ (mac ≡ sealed (codes "labsecret") (wire 1 7 auth (signed (user_name ∷ []) (zeros 16) [])))
unfolding encode_attributes
verify_message_authenticator-signed_example =
    verify_message_authenticator-signed counting sealed (λ s. s) 1 7 auth mac (codes "labsecret")
      (user_name ∷ []) [] refl refl (omega arith, _) ((λ h. absurd (omega (arith, h))), _) _ _
      (omega arith)
