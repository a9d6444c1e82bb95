-- ===== src/Tacacs/Server/Replies.antt =====
-- tacacs.go: the replies of an authentication, on the wire.
use iolbox.Common.{
  ℕ, ◌+◌, ◌≤◌, ◌<◌, ◌^◌, ◌≡◌, ◌≢◌, refl, Bool, true, false, leb, List, [], ◌∷◌, ◌++◌, length, All,
  none, some, arith,
}
use iolbox.Common.Bytes.{IsByte}
use iolbox.Common.Texts.{codes}
use iolbox.Tacacs.{TacacsHeader, is_valid_header, decode_tacacs_packet, is_empty}
use iolbox.Tacacs.Pad.{IsDigest, encode_tacacs_packet_total, decode_tacacs_packet-encode}
use iolbox.Tacacs.Authen.{TacacsAuthenReply, encode_authen_reply, decode_authen_reply}
use iolbox.Tacacs.Authen.Replies.{decode_authen_reply-encode}
use iolbox.Radius.{Config}
use iolbox.Tacacs.Server.{Log, authen_reply, password_prompt, write_authen}
use iolbox.Tacacs.Server.Policy.{tacacs_key}

-- The connection takes every write.
abbrev pub takes_all : List (List ℕ) → List ℕ → Bool
takes_all sent encoded = true

abbrev reply_header : TacacsHeader → TacacsHeader
reply_header request = record request { seq_no = request.seq_no + 1; flags = 0 }

-- A packet that a client with the key reads as this reply to the request.
abbrev pub Carries : (List ℕ → List ℕ) → TacacsHeader → List ℕ → TacacsAuthenReply → List ℕ → Type 0
Carries md5 request key reply wire =
    (body : List ℕ) × (decode_tacacs_packet md5 wire key ≡ (
      record { header = record (reply_header request) { length = length body }; body = body },
      true,
    ))
    × (decode_authen_reply body ≡ some reply)

abbrev pub IsShort : TacacsAuthenReply → Type 0
IsShort reply =
    (body : List ℕ) × (encode_authen_reply reply ≡ some body)
    × All IsByte body
    × (length body ≤ 65535)

pub password_prompt-IsShort : IsShort password_prompt
unfolding encode_authen_reply
password_prompt-IsShort = (_, refl, omega arith, omega arith)

-- What the server says of the password.
abbrev pub verdict : Bool → TacacsAuthenReply
verdict true = authen_reply 0x01 0 (codes "Authentication successful")
verdict false = authen_reply 0x02 0 (codes "Authentication failed")

pub verdict-IsShort : (b : Bool) → IsShort (verdict b)
unfolding encode_authen_reply
verdict-IsShort true = (_, refl, omega arith, omega arith)
verdict-IsShort false = (_, refl, omega arith, omega arith)

-- A request's header, to which there is a reply.
abbrev pub IsRequest : TacacsHeader → Type 0
IsRequest h = (is_valid_header h ≡ true) × (h.session_id < 2 ^ 32) × (h.seq_no < 254)

reply_header_valid :
    (h : TacacsHeader) (n : ℕ)
    → IsRequest h
    → n ≤ 65535
    → is_valid_header (record (reply_header h) { length = n }) ≡ true
unfolding is_valid_header
reply_header_valid h n (v, s, q) small = ground (arith, v, q, small)

lt_leb : (n : ℕ) → n < 254 → leb 254 n ≡ false
lt_leb n h = ground arith

-- A short reply goes out whole, as a packet that the client can read.
pub write_authen_lem :
    (md5 : List ℕ → List ℕ) (digest : IsDigest md5) (request : TacacsHeader) (cfg : Config)
    (reply : TacacsAuthenReply) (log : Log)
    → IsRequest request
    → is_empty (tacacs_key cfg) ≡ false
    → IsShort reply
    → (wire : List ℕ) × (write_authen md5 takes_all request cfg reply log
        ≡ (record log { sent = log.sent ++ (wire ∷ []) }, none))
      × Carries md5 request (tacacs_key cfg) reply wire
unfolding write_authen
write_authen_lem md5 digest request cfg reply log (v, s, q) key (body, e, bytes, small) =
    let k : tacacs_key cfg ≢ [] = λ p. cc (p, key) in
    let h = reply_header request in
    let (wire, w) =
      encode_tacacs_packet_total md5 h body (tacacs_key cfg) small
        (reply_header_valid request (length body) (v, s, q) small) in
    let early = lt_leb request.seq_no q in
    (
      wire,
      rw (e, key, early, w) refl,
      (
        body,
        decode_tacacs_packet-encode md5 digest h body (tacacs_key cfg) wire s refl bytes k w,
        decode_authen_reply-encode reply body e,
      ),
    )
