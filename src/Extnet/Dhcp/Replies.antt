-- ===== src/Extnet/Dhcp/Replies.antt =====
-- dhcp.go: what a client reads in a reply.
use iolbox.Common.{
  ℕ, ◌+◌, ◌<◌, ◌≡◌, refl, ap, ◌∙◌, sym, false, List, [], ◌∷◌, ◌++◌, length, drop, All, ltb,
  length-append, ge→ltb, Option, some, none, arith,
}
use iolbox.Common.Bytes.{bytes32, bytes16_value, bytes32_value}
use iolbox.Extnet.Dhcp.{
  Packet, first32, dhcp_magic, decode_packet, parse_options, fixed_fields, apply_option, encode,
  encode_fixed, encode_options, dup4, to4_or_zero, op_boot_reply, opt_message_type, opt_server_id,
  opt_lease_time, opt_renewal_t1, opt_rebinding_t2, opt_subnet_mask, opt_router, opt_dns, opt_end,
}
use iolbox.Extnet.Dhcp.Options.{
  Item, opt, field_bytes, apply_items, IsItem, parse_options-field_bytes,
}

-- The options of a reply.
abbrev pub reply_items : ℕ → Option ℕ → Option ℕ → List Item
reply_items msg_type server_ip mask =
    opt opt_message_type (msg_type ∷ [])
    ∷ opt opt_server_id (to4_or_zero server_ip)
    ∷ opt opt_lease_time (bytes32 3600)
    ∷ opt opt_renewal_t1 (bytes32 1800)
    ∷ opt opt_rebinding_t2 (bytes32 3150)
    ∷ opt opt_subnet_mask (to4_or_zero mask)
    ∷ opt opt_router (to4_or_zero server_ip)
    ∷ opt opt_dns (1 ∷ 1 ∷ 1 ∷ 1 ∷ 8 ∷ 8 ∷ 8 ∷ 8 ∷ [])
    ∷ []

encode_options-reply_items :
    (t : ℕ) (server_ip mask : Option ℕ)
    → encode_options t server_ip mask ≡ field_bytes (reply_items t server_ip mask) ++ (opt_end ∷ [])
unfolding encode_options field_bytes
encode_options-reply_items t none none = refl
encode_options-reply_items t none (some m) = refl
encode_options-reply_items t (some s) none = refl
encode_options-reply_items t (some s) (some m) = refl

-- No IPv4 form is written as 0.0.0.0.
encode_fixed-dup4 :
    (p : Packet) (yi gi server_ip : Option ℕ)
    → encode_fixed (record p { yi_addr = yi; gi_addr = gi }) server_ip
      ≡ encode_fixed (record p { yi_addr = dup4 yi; gi_addr = dup4 gi }) (dup4 server_ip)
unfolding encode_fixed
encode_fixed-dup4 p none none none = refl
encode_fixed-dup4 p none none (some s) = refl
encode_fixed-dup4 p none (some g) none = refl
encode_fixed-dup4 p none (some g) (some s) = refl
encode_fixed-dup4 p (some y) none none = refl
encode_fixed-dup4 p (some y) none (some s) = refl
encode_fixed-dup4 p (some y) (some g) none = refl
encode_fixed-dup4 p (some y) (some g) (some s) = refl

abbrev pub IsAddr : Option ℕ → Type 0
IsAddr none = Unit {0}
IsAddr (some v) = v < 4294967296

-- What the fixed part holds, with any bytes behind it.
record Fixed (p : Packet) (y g : ℕ) (hw b opts : List ℕ) : Type 0 where
  fields : fixed_fields b ≡ record {
    op = op_boot_reply;
    xid = p.xid;
    flags = p.flags;
    ci_addr = some 0;
    yi_addr = some y;
    gi_addr = some g;
    ch_addr = hw;
    msg_type = 0;
    req_ip = none;
  }
  behind : drop 240 b ≡ opts
  magic : first32 (drop 236 b) ≡ dhcp_magic
  len : length b ≡ 240 + length opts

encode_fixed-Fixed :
    (p : Packet) (y g s a b c d e f : ℕ) (opts : List ℕ)
    → p.xid < 4294967296
    → p.flags < 65536
    → y < 4294967296
    → g < 4294967296
    → let hw = a ∷ b ∷ c ∷ d ∷ e ∷ f ∷ [] in
      Fixed p y g hw
        (encode_fixed (record p { yi_addr = some y; gi_addr = some g; ch_addr = hw }) (some s)
          ++ opts)
        opts
unfolding encode_fixed fixed_fields
encode_fixed-Fixed p y g s a b c d e f opts hx hf hy hg = record {
  fields =
      rw (bytes32_value p.xid hx, bytes16_value p.flags hf, bytes32_value y hy, bytes32_value g hg);
  behind = refl;
  magic = refl;
  len = omega arith;
}

decode_packet-Fixed :
    (p : Packet) (y g : ℕ) (hw b : List ℕ) (items : List Item)
    → All IsItem items
    → Fixed p y g hw b (field_bytes items ++ (opt_end ∷ []))
    → decode_packet b ≡ some (apply_items (fixed_fields b) items)
unfolding decode_packet
decode_packet-Fixed p y g hw b items ok w =
    let long : ltb (length b) 240 ≡ false = ge→ltb (length b) 240 (omega (arith, w.len)) in
    let loop : parse_options (length b) (fixed_fields b) (field_bytes items ++ (opt_end ∷ []))
        ≡ apply_items (fixed_fields b) items =
      parse_options-field_bytes (length b) (fixed_fields b) items [] ok
        (omega (arith, w.len, length-append (field_bytes items) (opt_end ∷ []))) in
    rw (long, w.magic, w.behind, loop)

reply_items-IsItem : (t : ℕ) (server_ip mask : Option ℕ) → All IsItem (reply_items t server_ip mask)
reply_items-IsItem t server_ip mask = omega arith

-- A reply carries its message type, and nothing else that a server reads.
apply_items-reply_items :
    (p : Packet) (t : ℕ) (server_ip mask : Option ℕ)
    → apply_items p (reply_items t server_ip mask) ≡ record p { msg_type = t }
unfolding apply_items apply_option
apply_items-reply_items p t none none = refl
apply_items-reply_items p t none (some m) = refl
apply_items-reply_items p t (some s) none = refl
apply_items-reply_items p t (some s) (some m) = refl

dup4_value : Option ℕ → ℕ
dup4_value none = 0
dup4_value (some v) = v

dup4-some : (ip : Option ℕ) → dup4 ip ≡ some (dup4_value ip)
unfolding dup4_value
dup4-some none = refl
dup4-some (some v) = refl

dup4_value-lt : (ip : Option ℕ) → IsAddr ip → dup4_value ip < 4294967296
unfolding dup4_value
dup4_value-lt none h = omega arith
dup4_value-lt (some v) h = h

-- What `Encode` makes of a packet for a client of six address bytes is a datagram that `DecodePacket`
-- accepts, with the packet's transaction id, flags, addresses (0.0.0.0 where there is none) and
-- client, as a BOOTREPLY of the given type; and behind the fixed part stand, for any reader of RFC
-- 2132's format, just the options of `reply_items` and the end mark: the type, the server, a lease of
-- 3600 seconds with its renewal times, the mask, the router, which is the server, and the name
-- servers 1.1.1.1 and 8.8.8.8.
pub decode_packet-encode :
    (p : Packet) (t : ℕ) (server_ip mask : Option ℕ) (a b c d e f : ℕ)
    → p.ch_addr ≡ a ∷ b ∷ c ∷ d ∷ e ∷ f ∷ []
    → p.xid < 4294967296
    → p.flags < 65536
    → IsAddr p.yi_addr
    → IsAddr p.gi_addr
    → (decode_packet (encode p t server_ip mask)
        ≡ some (record {
          op = op_boot_reply;
          xid = p.xid;
          flags = p.flags;
          ci_addr = some 0;
          yi_addr = dup4 p.yi_addr;
          gi_addr = dup4 p.gi_addr;
          ch_addr = p.ch_addr;
          msg_type = t;
          req_ip = none;
        }))
      × (drop 240 (encode p t server_ip mask)
          ≡ field_bytes (reply_items t server_ip mask) ++ (opt_end ∷ []))
unfolding encode
decode_packet-encode p t server_ip mask a b c d e f h hx hf hy hg =
    let y = dup4_value p.yi_addr in
    let g = dup4_value p.gi_addr in
    let hw = a ∷ b ∷ c ∷ d ∷ e ∷ f ∷ [] in
    let items = reply_items t server_ip mask in
    let rest = field_bytes items ++ (opt_end ∷ []) in
    let s = dup4_value server_ip in
    let known = λ (l : List ℕ).
      encode_fixed (record p { yi_addr = some y; gi_addr = some g; ch_addr = l }) (some s) in
    let head : encode_fixed p server_ip ≡ known hw =
      encode_fixed-dup4 p p.yi_addr p.gi_addr server_ip
      ∙ rw (dup4-some p.yi_addr, dup4-some p.gi_addr, dup4-some server_ip) (ap known h) in
    let w =
      encode_fixed-Fixed p y g s a b c d e f rest hx hf (dup4_value-lt p.yi_addr hy)
        (dup4_value-lt p.gi_addr hg) in
    let whole : encode p t server_ip mask ≡ known hw ++ rest =
      rw (head, encode_options-reply_items t server_ip mask) in
    let read =
      decode_packet-Fixed p y g hw (known hw ++ rest) items (reply_items-IsItem t server_ip mask)
        w in
    (
      rw (whole, read, w.fields, apply_items-reply_items, dup4-some p.yi_addr, dup4-some p.gi_addr)
          (ap
            (λ (l : List ℕ). some (record p {
              op = op_boot_reply;
              ci_addr = some 0;
              yi_addr = some y;
              gi_addr = some g;
              ch_addr = l;
              msg_type = t;
              req_ip = none;
            }))
            (sym h)),
      rw whole w.behind,
    )
