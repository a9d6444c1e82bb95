-- ===== src/Tacacs/Authen/Replies.antt =====
-- tacacs_wire.go: the replies and the continuations of an authentication, encoded and decoded.
use Prim.Native.Nat.{bit_and}
use iolbox.Common.{
  ℕ, ◌<◌, ◌≡◌, ap, true, false, not, ◌||◌, ◌==◌, ltb, ge→ltb, List, [], ◌∷◌, ◌++◌, length,
  get_elem?, some, arith,
}
use iolbox.Common.Bytes.{bytes16, bytes16_value}
use iolbox.Tacacs.Fields.{decode_fixed_length_strings, all_parts, field_length}
use iolbox.Tacacs.Fields.Cut.{two_parts, decode_fixed_length_strings-all_parts}
use iolbox.Tacacs.Authen.{
  valid_authen_status, echoes_password, TacacsAuthenReply, encode_authen_reply, two_values,
  decode_authen_reply, TacacsAuthenContinue, encode_authen_continue, decode_authen_continue,
}
use iolbox.Tacacs.Authen.RoundTrips.{require-some}

fits_both : (a b : ℕ) → not (ltb 65535 a || ltb 65535 b) ≡ true → (a < 65536) × (b < 65536)
fits_both a b h = ground arith

reply_bytes : TacacsAuthenReply → List ℕ
reply_bytes r = r.status ∷ r.flags ∷ (bytes16 (length r.server_msg) ++ bytes16 (length r.data_part))

reply_values :
    (r : TacacsAuthenReply)
    → length r.server_msg < 65536
    → length r.data_part < 65536
    → decode_fixed_length_strings
        (reply_bytes r ++ all_parts (r.server_msg ∷ r.data_part ∷ []))
        2
        2
        2
        6
      ≡ some (r.server_msg ∷ r.data_part ∷ [])
unfolding reply_bytes field_length
reply_values r h k =
    decode_fixed_length_strings-all_parts (reply_bytes r) 2 2 (r.server_msg ∷ r.data_part ∷ [])
      (omega arith) (omega arith) (omega arith)
      (
        ap some (bytes16_value (length r.server_msg) h),
        (ap some (bytes16_value (length r.data_part) k), tt),
      )

encode_authen_reply-some :
    (r : TacacsAuthenReply) (body : List ℕ)
    → encode_authen_reply r ≡ some body
    → (valid_authen_status r.status ≡ true)
      × ((bit_and r.flags 254 == 0) ≡ true)
      × (not (echoes_password r.status r.flags) ≡ true)
      × (not (ltb 65535 (length r.server_msg) || ltb 65535 (length r.data_part)) ≡ true)
      × (body ≡ reply_bytes r ++ all_parts (r.server_msg ∷ r.data_part ∷ []))
unfolding encode_authen_reply reply_bytes
encode_authen_reply-some r body e =
    let (a, e1) = require-some (valid_authen_status r.status) _ e in
    let (b, e2) = require-some (bit_and r.flags 254 == 0) _ e1 in
    let (c, e3) = require-some (not (echoes_password r.status r.flags)) _ e2 in
    let (d, e4) =
      require-some (not (ltb 65535 (length r.server_msg) || ltb 65535 (length r.data_part))) _ e3 in
    (a, b, c, d, rw (two_parts r.server_msg r.data_part) (cc e4))

-- The reply of an authentication that is encoded is decoded to itself.
pub decode_authen_reply-encode :
    (r : TacacsAuthenReply) (body : List ℕ)
    → encode_authen_reply r ≡ some body
    → decode_authen_reply body ≡ some r
unfolding decode_authen_reply two_values reply_bytes
decode_authen_reply-encode r body e =
    let (a, b, c, d, p) = encode_authen_reply-some r body e in
    let (h, k) = fits_both _ _ d in
    let long : ltb (length body) 6 ≡ false = ge→ltb (length body) 6 (rw p (omega arith)) in
    let g0 : get_elem? body 0 ≡ some r.status = rw p in
    let g1 : get_elem? body 1 ≡ some r.flags = rw p in
    let values : decode_fixed_length_strings body 2 2 2 6 ≡ some (r.server_msg ∷ r.data_part ∷ []) =
      rw p (reply_values r h k) in
    rw (decode_authen_reply, long, g0, g1, a, b, values, c)

continue_bytes : TacacsAuthenContinue → List ℕ
continue_bytes c = bytes16 (length c.user_msg) ++ (bytes16 (length c.data_part) ++ (c.flags ∷ []))

continue_values :
    (c : TacacsAuthenContinue)
    → length c.user_msg < 65536
    → length c.data_part < 65536
    → decode_fixed_length_strings
        (continue_bytes c ++ all_parts (c.user_msg ∷ c.data_part ∷ []))
        0
        2
        2
        5
      ≡ some (c.user_msg ∷ c.data_part ∷ [])
unfolding continue_bytes field_length
continue_values c h k =
    decode_fixed_length_strings-all_parts (continue_bytes c) 2 0 (c.user_msg ∷ c.data_part ∷ [])
      (omega arith) (omega arith) (omega arith)
      (
        ap some (bytes16_value (length c.user_msg) h),
        (ap some (bytes16_value (length c.data_part) k), tt),
      )

encode_authen_continue-some :
    (c : TacacsAuthenContinue) (body : List ℕ)
    → encode_authen_continue c ≡ some body
    → (not (ltb 65535 (length c.user_msg) || ltb 65535 (length c.data_part)) ≡ true)
      × ((bit_and c.flags 254 == 0) ≡ true)
      × (body ≡ continue_bytes c ++ all_parts (c.user_msg ∷ c.data_part ∷ []))
unfolding encode_authen_continue continue_bytes
encode_authen_continue-some c body e =
    let (a, e1) =
      require-some (not (ltb 65535 (length c.user_msg) || ltb 65535 (length c.data_part))) _ e in
    let (b, e2) = require-some (bit_and c.flags 254 == 0) _ e1 in
    (a, b, rw (two_parts c.user_msg c.data_part) (cc e2))

-- The continuation of an authentication that is encoded is decoded to itself.
pub decode_authen_continue-encode :
    (c : TacacsAuthenContinue) (body : List ℕ)
    → encode_authen_continue c ≡ some body
    → decode_authen_continue body ≡ some c
unfolding decode_authen_continue two_values continue_bytes
decode_authen_continue-encode c body e =
    let (a, b, p) = encode_authen_continue-some c body e in
    let (h, k) = fits_both _ _ a in
    let long : ltb (length body) 5 ≡ false = ge→ltb (length body) 5 (rw p (omega arith)) in
    let g4 : get_elem? body 4 ≡ some c.flags = rw p in
    let values : decode_fixed_length_strings body 0 2 2 5 ≡ some (c.user_msg ∷ c.data_part ∷ []) =
      rw p (continue_values c h k) in
    rw (decode_authen_continue, long, g4, b, values)
