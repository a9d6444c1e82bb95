-- ===== src/Tacacs/Pad.antt =====
-- tacacs_wire.go: the pad, and the way of a packet back through it.
use Prim.Native.Nat.{bit_and}
use iolbox.Common.{
  ℕ, zero, suc, ◌+◌, ◌^◌, ◌≤◌, ◌<◌, ◌≡◌, ◌≢◌, refl, ap, true, false, ◌==◌, ltb, Bool-cases, inl,
  inr, List, [], ◌∷◌, ◌++◌, length, take, drop, length-append, length-take, some, All, arith,
  ==_iff, ge→ltb, if◌then◌else◌, none, ◌>>=◌, if-some, if_not-some, >>=-eq-some,
}
use iolbox.Common.Bytes.{IsByte, bytes32, bytes32_value}
use iolbox.Common.Xor.{xor_twice}
use iolbox.Tacacs.{
  TacacsHeader, is_valid_header, header_bytes, header_of, encode_tacacs_header,
  decode_tacacs_header, xor_with, is_empty, pad_loop, tacacs_pad, encode_tacacs_packet, decode_body,
  decode_tacacs_packet, tacacs_flag_unencrypted, max_body,
}

pub All-append : (s t : List ℕ) → All IsByte s → All IsByte t → All IsByte (s ++ t)
All-append [] t h k = k
All-append (c ∷ s) t h k = (h.0, All-append s t h.1 k)

pub All-take : (n : ℕ) (s : List ℕ) → All IsByte s → All IsByte (take n s)
All-take zero s h = tt
All-take (suc n) [] h = tt
All-take (suc n) (c ∷ s) h = (h.0, All-take n s h.1)

-- What the source relies on of MD5: a digest is 16 bytes.
unfoldable pub IsDigest : (List ℕ → List ℕ) → Type 0
IsDigest md5 = (x : List ℕ) → (length (md5 x) ≡ 16) × All IsByte (md5 x)

module _ (md5 : List ℕ → List ℕ) (digest : IsDigest md5) where
  length-pad_loop :
      (fuel : ℕ) (seed previous pad : List ℕ) (n : ℕ)
      → n ≤ fuel + length pad
      → n ≤ length (pad_loop md5 fuel seed previous pad n)
  unfolding pad_loop IsDigest
  length-pad_loop zero seed previous pad n h = omega (arith, h)
  length-pad_loop (suc fuel) seed previous pad n h =
      let d = md5 (seed ++ previous) in
      let rest =
        length-pad_loop fuel seed d (pad ++ d) n
          (omega (arith, h, length-append pad d, (digest (seed ++ previous)).0)) in
      ground (arith, rest)

  pub length-tacacs_pad :
      (session_id : ℕ) (key : List ℕ) (version seq_no n : ℕ)
      → length (tacacs_pad md5 session_id key version seq_no n) ≡ n
  unfolding tacacs_pad
  length-tacacs_pad session_id key version seq_no n =
      let seed = bytes32 session_id ++ (key ++ (version ∷ seq_no ∷ [])) in
      omega (
        arith,
        length-take n (pad_loop md5 n seed [] [] n),
        length-pad_loop n seed [] [] n (omega arith),
      )

  bytes-pad_loop :
      (fuel : ℕ) (seed previous pad : List ℕ) (n : ℕ)
      → All IsByte pad
      → All IsByte (pad_loop md5 fuel seed previous pad n)
  unfolding pad_loop IsDigest
  bytes-pad_loop zero seed previous pad n h = h
  bytes-pad_loop (suc fuel) seed previous pad n h =
      let d = md5 (seed ++ previous) in
      let rest =
        bytes-pad_loop fuel seed d (pad ++ d) n
          (All-append pad d h (digest (seed ++ previous)).1) in
      elim (Bool-cases (ltb (length pad) n)) [ inl e ↦ rw e rest | inr e ↦ rw e h ]

  bytes-tacacs_pad :
      (session_id : ℕ) (key : List ℕ) (version seq_no n : ℕ)
      → All IsByte (tacacs_pad md5 session_id key version seq_no n)
  unfolding tacacs_pad
  bytes-tacacs_pad session_id key version seq_no n = All-take n _ (bytes-pad_loop n _ [] [] n tt)

pub xor_with_twice :
    (t p : List ℕ)
    → All IsByte t
    → All IsByte p
    → length t ≤ length p
    → xor_with (xor_with t p) p ≡ t
unfolding xor_with
xor_with_twice [] p ht hp h = refl
xor_with_twice (x ∷ t) [] ht hp h = absurd (omega (arith, h))
xor_with_twice (x ∷ t) (y ∷ p) ht hp h =
    cc (xor_twice x y ht.0 hp.0, xor_with_twice t p ht.1 hp.1 (omega (arith, h)))

pub length-xor_with : (t p : List ℕ) → length t ≤ length p → length (xor_with t p) ≡ length t
unfolding xor_with
length-xor_with [] p h = refl
length-xor_with (x ∷ t) [] h = absurd (omega (arith, h))
length-xor_with (x ∷ t) (y ∷ p) h = ap suc (length-xor_with t p (omega (arith, h)))

is_valid_header-le : (h : TacacsHeader) → is_valid_header h ≡ true → h.length ≤ 65535
unfolding is_valid_header
is_valid_header-le h v = ground arith

header_of-header_bytes :
    (h : TacacsHeader) (body : List ℕ)
    → h.session_id < 2 ^ 32
    → h.length ≤ 65535
    → header_of (header_bytes h ++ body) ≡ h
unfolding header_of header_bytes
header_of-header_bytes h body s l =
    rw (bytes32_value h.session_id s, bytes32_value h.length (omega (arith, l)))

length-header_bytes :
    (h : TacacsHeader) (body : List ℕ) → length (header_bytes h ++ body) ≡ 12 + length body
unfolding header_bytes
length-header_bytes h body = omega arith

drop-header_bytes : (h : TacacsHeader) (body : List ℕ) → drop 12 (header_bytes h ++ body) ≡ body
unfolding header_bytes
drop-header_bytes h body = refl

-- The header of a packet, read back.
decode_tacacs_header_bytes :
    (h : TacacsHeader) (body : List ℕ)
    → is_valid_header h ≡ true
    → h.session_id < 2 ^ 32
    → decode_tacacs_header (header_bytes h ++ body) ≡ (h, true)
unfolding decode_tacacs_header
decode_tacacs_header_bytes h body v s =
    let long =
      ge→ltb (length (header_bytes h ++ body)) 12 (omega (arith, length-header_bytes h body)) in
    let back = header_of-header_bytes h body s (is_valid_header-le h v) in
    rw (decode_tacacs_header, long, back, v)

encode_tacacs_header-some :
    (h : TacacsHeader) {bytes : List ℕ}
    → encode_tacacs_header h ≡ some bytes
    → (is_valid_header h ≡ true) × (bytes ≡ header_bytes h)
unfolding encode_tacacs_header
encode_tacacs_header-some h e = if-some (is_valid_header h) e

is_empty-false : (key : List ℕ) → key ≢ [] → is_empty key ≡ false
is_empty-false [] h = absurd (h refl)
is_empty-false (x ∷ xs) h = refl

module _ (md5 : List ℕ → List ℕ) (digest : IsDigest md5) (h : TacacsHeader)
    (plaintext key : List ℕ) where
  abbrev coded : List ℕ
  coded = xor_with plaintext (tacacs_pad md5 h.session_id key h.version h.seq_no (length plaintext))

  length-coded : length coded ≡ length plaintext
  length-coded = length-xor_with plaintext _ (
      omega (
        arith,
        length-tacacs_pad md5 digest h.session_id key h.version h.seq_no (length plaintext),
      ))

  coded_twice :
      All IsByte plaintext
      → xor_with coded (tacacs_pad md5 h.session_id key h.version h.seq_no (length plaintext))
        ≡ plaintext
  coded_twice b = xor_with_twice plaintext _ b (bytes-tacacs_pad md5 digest _ key _ _ _) (
      omega (
        arith,
        length-tacacs_pad md5 digest h.session_id key h.version h.seq_no (length plaintext),
      ))

  decode_body_bytes :
      h.length ≡ length plaintext
      → bit_and h.flags tacacs_flag_unencrypted ≡ 0
      → All IsByte plaintext
      → key ≢ []
      → decode_body md5 h (header_bytes h ++ coded) key
        ≡ (record { header = h; body = plaintext }, true)
  unfolding decode_body
  decode_body_bytes n f b k =
      let all : (length (header_bytes h ++ coded) == 12 + h.length) ≡ true =
        (==_iff _ _).1 (omega (arith, length-header_bytes h coded, length-coded, n)) in
      rw (decode_body, all, f, is_empty-false key k, drop-header_bytes h coded, n, coded_twice b)

-- A body that is not too long is encoded under a valid header.
pub encode_tacacs_packet_total :
    (md5 : List ℕ → List ℕ) (h : TacacsHeader) (plaintext key : List ℕ)
    → length plaintext ≤ max_body
    → is_valid_header (record h { length = length plaintext }) ≡ true
    → (wire : List ℕ) × (encode_tacacs_packet md5 h plaintext key ≡ some wire)
unfolding encode_tacacs_packet encode_tacacs_header
encode_tacacs_packet_total md5 h plaintext key small v =
    let header = header_bytes (record h { length = length plaintext }) in
    let text =
      xor_with plaintext (tacacs_pad md5 h.session_id key h.version h.seq_no (length plaintext)) in
    (
      header ++ text,
      λ i.
          if ge→ltb max_body (length plaintext) small i
          then none
          else (if v i then some header else none) >>= (λ (front : List ℕ). some (front ++ text)),
    )

-- A packet that is encoded, decoded with the same key: the header, with the length of the body, and
-- the body come back, for any MD5 whose digests are 16 bytes, any session id of 32 bits, any body of
-- bytes and any key that is not empty, when the header does not say that the body is not obfuscated.
pub decode_tacacs_packet-encode :
    (md5 : List ℕ → List ℕ) (digest : IsDigest md5) (h : TacacsHeader) (plaintext key wire : List ℕ)
    → h.session_id < 2 ^ 32
    → bit_and h.flags tacacs_flag_unencrypted ≡ 0
    → All IsByte plaintext
    → key ≢ []
    → encode_tacacs_packet md5 h plaintext key ≡ some wire
    → decode_tacacs_packet md5 wire key
      ≡ (record { header = record h { length = length plaintext }; body = plaintext }, true)
unfolding encode_tacacs_packet decode_tacacs_packet
decode_tacacs_packet-encode md5 digest h plaintext key wire s f b k e =
    let h' = record h { length = length plaintext } in
    let (_, e1) = if_not-some (ltb max_body (length plaintext)) e in
    let (header, e2, e3) = >>=-eq-some (encode_tacacs_header h') _ e1 in
    let (v, p) = encode_tacacs_header-some h' e2 in
    let wire_bytes : wire ≡ header_bytes h' ++ coded md5 digest h plaintext key = cc (e3, p) in
    rw (wire_bytes, decode_tacacs_packet, decode_tacacs_header_bytes h' _ v s)
      (decode_body_bytes md5 digest h' plaintext key refl f b k)
