-- ===== src/Radius/Signature.antt =====
-- radius.go: the Message-Authenticator of RFC 3579.
use iolbox.Common.{
  ℕ, zero, suc, ◌+◌, ◌-◌, ◌/◌, ◌%◌, if◌then◌else◌, ◌≤◌, ◌<◌, ◌≡◌, ◌≢◌, ◌↔◌, refl, sym, ap, ◌∙◌,
  true, false, ◌||◌, ◌&&◌, ◌==◌, ==_ne, ge→ltb, List, [], ◌∷◌, ◌++◌, some, length, take, drop, All,
  length-append, take-length-append, drop-length-append, take_front, drop_front, take_all,
  append_assoc, append-nil, arith,
}
use iolbox.Common.Bytes.{be16, bytes16, bytes16_value, zeros}
use iolbox.Common.Texts.{Text, eq_text, eq_text_refl, eq_text-eq}
use iolbox.Radius.Packets.{RadiusAttribute, encode_attributes, attr_message_auth}
use iolbox.Radius.{scan_message_auth, verify_message_authenticator, prepend, verify_prefix, agrees}
use iolbox.Radius.Attributes.{Fits, length-encode_attributes}

-- An attribute that is no message authenticator.
abbrev pub Other : RadiusAttribute → Type 0
Other a = a.typ ≢ attr_message_auth

-- One attribute, then the rest.
scan_message_auth-Other :
    (fuel : ℕ) (a : RadiusAttribute) (attrs : List RadiusAttribute) (tail expected : List ℕ)
    → Fits a
    → Other a
    → scan_message_auth (suc fuel) (encode_attributes (a ∷ attrs) ++ tail) expected
      ≡ prepend
          (a.typ ∷ (suc (suc (length a.value))) ∷ a.value)
          (scan_message_auth fuel (encode_attributes attrs ++ tail) expected)
unfolding scan_message_auth encode_attributes
scan_message_auth-Other fuel a attrs tail expected fits other =
    let out = encode_attributes attrs ++ tail in
    let L = length a.value in
    let short = ge→ltb 253 L fits in
    let n : (L + 2) % 256 ≡ suc (suc L) = omega (arith, fits) in
    let two = ge→ltb (suc (suc L)) 2 (omega arith) in
    let inside =
      ge→ltb (2 + length (a.value ++ out)) (suc (suc L))
        (omega (arith, length-append a.value out)) in
    let value : suc (suc L) - 2 ≡ L = omega arith in
    rw (
      short,
      n,
      append_assoc a.value (encode_attributes attrs) tail,
      ==_ne a.typ 80 other,
      two,
      inside,
      value,
      take-length-append a.value out,
      drop-length-append a.value out,
    )

encode_attributes-cons :
    (a : RadiusAttribute) (attrs : List RadiusAttribute)
    → Fits a
    → encode_attributes (a ∷ attrs)
      ≡ (a.typ ∷ suc (suc (length a.value)) ∷ a.value) ++ encode_attributes attrs
unfolding encode_attributes
encode_attributes-cons a attrs fits =
    let n : (length a.value + 2) % 256 ≡ suc (suc (length a.value)) = omega (arith, fits) in
    rw (ge→ltb 253 (length a.value) fits, n)

-- Other attributes in front are left as they are.
scan_message_auth-append :
    (fuel : ℕ) (attrs : List RadiusAttribute) (tail zeroed expected found : List ℕ)
    → All Fits attrs
    → All Other attrs
    → length (encode_attributes attrs ++ tail) ≤ fuel
    → ((f : ℕ) → length tail ≤ f → scan_message_auth f tail expected ≡ some (zeroed, found))
    → scan_message_auth fuel (encode_attributes attrs ++ tail) expected
      ≡ some (encode_attributes attrs ++ zeroed, found)
scan_message_auth-append fuel [] tail zeroed expected found fit other enough rest =
    unfold encode_attributes in rest fuel enough
scan_message_auth-append zero (a ∷ attrs) tail zeroed expected found (fits, fit) other enough rest =
    absurd (
      omega (
        arith,
        enough,
        length-append (encode_attributes (a ∷ attrs)) tail,
        length-encode_attributes a attrs fits,
      ))
scan_message_auth-append (suc fuel) (a ∷ attrs) tail zeroed expected found (fits, fit) (o, other)
      enough rest =
    let front : List ℕ = a.typ ∷ suc (suc (length a.value)) ∷ a.value in
    let less : length (encode_attributes attrs ++ tail) ≤ fuel = omega (
      arith,
      enough,
      length-append (encode_attributes (a ∷ attrs)) tail,
      length-append (encode_attributes attrs) tail,
      length-encode_attributes a attrs fits,
    ) in
    scan_message_auth-Other fuel a attrs tail expected fits o
    ∙ ap (prepend front)
        (scan_message_auth-append fuel attrs tail zeroed expected found fit other less rest)
    ∙ ap (λ (l : List ℕ). some (l, found))
        (sym (append_assoc front (encode_attributes attrs) zeroed)
          ∙ ap (λ (l : List ℕ). l ++ zeroed) (sym (encode_attributes-cons a attrs fits)))

scan_message_auth-nil :
    (fuel : ℕ) (expected : List ℕ) → scan_message_auth fuel [] expected ≡ some ([], expected)
unfolding scan_message_auth
scan_message_auth-nil zero expected = refl
scan_message_auth-nil (suc fuel) expected = refl

-- The attributes of a signed packet, and those with zeros for the value of the authenticator.
abbrev pub signed : List RadiusAttribute → List ℕ → List RadiusAttribute → List ℕ
signed before mac after =
    encode_attributes before ++ (attr_message_auth ∷ 18 ∷ (mac ++ encode_attributes after))

scan_message_auth-auth :
    (fuel : ℕ) (mac : List ℕ) (after : List RadiusAttribute) (expected : List ℕ)
    → length mac ≡ 16
    → All Fits after
    → All Other after
    → length (attr_message_auth ∷ 18 ∷ (mac ++ encode_attributes after)) ≤ fuel
    → scan_message_auth fuel (attr_message_auth ∷ 18 ∷ (mac ++ encode_attributes after)) expected
      ≡ some (attr_message_auth ∷ 18 ∷ (zeros 16 ++ encode_attributes after), mac)
unfolding scan_message_auth
scan_message_auth-auth zero mac after expected sixteen fit other enough =
    absurd (omega (arith, enough))
scan_message_auth-auth (suc fuel) mac after expected sixteen fit other enough =
    let E = encode_attributes after in
    let both = length-append mac E in
    let front : take 16 (mac ++ E) ≡ mac = take_front 16 mac E sixteen in
    let behind : drop 16 (mac ++ E) ≡ E = drop_front 16 mac E sixteen in
    let inside = ge→ltb (2 + length (mac ++ E)) 18 (omega (arith, both, sixteen)) in
    let nil = append-nil E in
    let rest : scan_message_auth fuel E mac ≡ some (E, mac) =
      ap (λ (l : List ℕ). scan_message_auth fuel l mac) (sym nil)
      ∙ scan_message_auth-append fuel after [] [] mac mac fit other
          (omega (arith, enough, both, sixteen, ap length nil)) (λ f _. scan_message_auth-nil f mac)
      ∙ ap (λ (l : List ℕ). some (l, mac)) nil in
    rw (inside, front, behind, rest)

-- What is signed, cut behind the header.
verify_prefix-signed :
    (md5 : List ℕ → List ℕ) (hmac : List ℕ → List ℕ → List ℕ) (fold : Text → Text)
    (front rest zeroed mac secret : List ℕ)
    → length front ≡ 20
    → scan_message_auth (length rest) rest [] ≡ some (zeroed, mac)
    → verify_prefix md5 hmac fold (front ++ rest) secret (length (front ++ rest))
      ≡ agrees md5 hmac fold secret front (some (zeroed, mac))
verify_prefix-signed md5 hmac fold front rest zeroed mac secret long scanned =
    let packet = front ++ rest in
    let n = length packet in
    let big = ge→ltb n 20 (omega (arith, long, length-append front rest)) in
    let same = ge→ltb n n (omega arith) in
    let F = λ (w : List ℕ).
      agrees md5 hmac fold secret (take 20 w)
        (scan_message_auth (length (drop 20 w)) (drop 20 w) []) in
    let open_test : verify_prefix md5 hmac fold packet secret n ≡ F (take n packet) =
      λ i. if big i || same i then false else F (take n packet) in
    open_test
    ∙ ap F (take_all packet)
    ∙ (λ i. agrees md5 hmac fold secret (take_front 20 front rest long i) (
        scan_message_auth (length (drop_front 20 front rest long i))
          (drop_front 20 front rest long i) []))
    ∙ ap (agrees md5 hmac fold secret front) scanned

-- The packet with these attributes.
abbrev pub wire : ℕ → ℕ → List ℕ → List ℕ → List ℕ
wire code id auth attrs = (code ∷ id ∷ bytes16 (20 + length attrs)) ++ (auth ++ attrs)

-- A packet with one message authenticator, anywhere among its attributes, is trusted exactly if the
-- authenticator is HMAC-MD5, by the shared secret, of the packet with zeros in the authenticator's place.
pub verify_message_authenticator-signed :
    (md5 : List ℕ → List ℕ) (hmac : List ℕ → List ℕ → List ℕ) (fold : Text → Text) (code id : ℕ)
    (auth mac secret : List ℕ) (before after : List RadiusAttribute)
    → length auth ≡ 16
    → length mac ≡ 16
    → All Fits before
    → All Other before
    → All Fits after
    → All Other after
    → 20 + length (signed before mac after) < 65536
    → (verify_message_authenticator md5 hmac fold
          (wire code id auth (signed before mac after))
          secret
        ≡ true)
      ↔ (mac ≡ hmac secret (wire code id auth (signed before (zeros 16) after)))
unfolding verify_message_authenticator
verify_message_authenticator-signed md5 hmac fold code id auth mac secret before after a16 m16 fb ob
      fa oa small =
    let S = signed before mac after in
    let Z = signed before (zeros 16) after in
    let front : List ℕ = (code ∷ id ∷ bytes16 (20 + length S)) ++ auth in
    let sizes : length S ≡ length Z = omega (
      arith,
      m16,
      length-append (encode_attributes before)
          (attr_message_auth ∷ 18 ∷ (mac ++ encode_attributes after)),
      length-append (encode_attributes before)
          (attr_message_auth ∷ 18 ∷ (zeros 16 ++ encode_attributes after)),
      length-append mac (encode_attributes after),
    ) in
    let scanned =
      scan_message_auth-append (length S) before
        (attr_message_auth ∷ 18 ∷ (mac ++ encode_attributes after))
        (attr_message_auth ∷ 18 ∷ (zeros 16 ++ encode_attributes after)) [] mac fb ob (omega arith)
        (λ f enough. scan_message_auth-auth f mac after [] m16 fa oa enough) in
    let n : be16 ((20 + length S) / 256 % 256) ((20 + length S) % 256) ≡ length (front ++ S) =
      bytes16_value (20 + length S) small ∙ omega (arith, a16, length-append auth S) in
    let zeroed : front ++ Z ≡ wire code id auth Z =
      ap (λ (k : ℕ). (code ∷ id ∷ bytes16 (20 + k)) ++ (auth ++ Z)) sizes in
    let long =
      ge→ltb (length (wire code id auth S)) 20 (omega (arith, a16, length-append auth S)) in
    let verified : verify_message_authenticator md5 hmac fold (wire code id auth S) secret
        ≡ eq_text mac (hmac secret (wire code id auth Z)) =
      (λ i.
        if long i
        then false
        else verify_prefix md5 hmac fold (wire code id auth S) secret
            (be16 ((20 + length S) / 256 % 256) ((20 + length S) % 256)))
      ∙ ap (verify_prefix md5 hmac fold (wire code id auth S) secret) n
      ∙ verify_prefix-signed md5 hmac fold front S Z mac secret (omega (arith, a16)) scanned
      ∙ (λ i. m16 i == 16 && eq_text mac (hmac secret (front ++ Z)))
      ∙ ap (λ (l : List ℕ). eq_text mac (hmac secret l)) zeroed in
    (
      λ h. eq_text-eq mac (hmac secret (wire code id auth Z)) (sym verified ∙ h),
      λ e. verified ∙ ap (eq_text mac) (sym e) ∙ eq_text_refl mac,
    )
