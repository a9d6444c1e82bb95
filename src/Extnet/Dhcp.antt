-- ===== src/Extnet/Dhcp.antt =====
-- supervisor/internal/extnet/dhcp.go: the DHCP packet codec and the policy of the server. A net.IP is
-- seen through To4(): the uint32 of its four bytes, or `none` where there is no IPv4 form (nil).
pub mod Options
pub mod Policy
pub mod Replies
mod Runs
use iolbox.Common.{
  ℕ, zero, suc, ◌+◌, ◌-◌, ◌*◌, ◌/◌, Bool, true, false, not, ◌&&◌, ltb, leb, ◌==◌, if◌then◌else◌,
  List, [], ◌∷◌, ◌++◌, length, take, drop, Option, some, none,
}
use iolbox.Common.Bytes.{be16, be32, bytes32, zeros, copy_at, put_be16, put_be32}

abbrev pub dhcp_min_len : ℕ
dhcp_min_len = 240

abbrev pub dhcp_magic : ℕ
dhcp_magic = 0x63825363

abbrev pub op_boot_request : ℕ
op_boot_request = 1

abbrev pub op_boot_reply : ℕ
op_boot_reply = 2

-- The high bit of the flags.
abbrev pub flag_broadcast : ℕ
flag_broadcast = 0x8000

-- The option codes that the server reads or writes.
abbrev pub opt_pad : ℕ
opt_pad = 0

abbrev pub opt_subnet_mask : ℕ
opt_subnet_mask = 1

abbrev pub opt_router : ℕ
opt_router = 3

abbrev pub opt_dns : ℕ
opt_dns = 6

abbrev pub opt_requested_ip : ℕ
opt_requested_ip = 50

abbrev pub opt_lease_time : ℕ
opt_lease_time = 51

abbrev pub opt_message_type : ℕ
opt_message_type = 53

abbrev pub opt_server_id : ℕ
opt_server_id = 54

abbrev pub opt_renewal_t1 : ℕ
opt_renewal_t1 = 58

abbrev pub opt_rebinding_t2 : ℕ
opt_rebinding_t2 = 59

abbrev pub opt_end : ℕ
opt_end = 255

abbrev pub msg_discover : ℕ
msg_discover = 1

abbrev pub msg_offer : ℕ
msg_offer = 2

abbrev pub msg_request : ℕ
msg_request = 3

abbrev pub msg_ack : ℕ
msg_ack = 5

abbrev pub msg_nak : ℕ
msg_nak = 6

abbrev pub lease_seconds : ℕ
lease_seconds = 3600

-- 1.1.1.1 and 8.8.8.8
abbrev pub dns_servers : List (Option ℕ)
dns_servers = some 0x01010101 ∷ some 0x08080808 ∷ []

pub record Packet : Type 0 where
  pub op : ℕ
  pub xid : ℕ
  pub flags : ℕ
  pub ci_addr : Option ℕ
  pub yi_addr : Option ℕ
  pub gi_addr : Option ℕ
  pub ch_addr : List ℕ
  pub msg_type : ℕ
  pub req_ip : Option ℕ

-- binary.BigEndian.Uint16(b[i:i+2]) and Uint32, of a datagram that is long enough.
abbrev pub first16 : List ℕ → ℕ
first16 (a ∷ b ∷ rest) = be16 a b
first16 _ = 0

abbrev pub first32 : List ℕ → ℕ
first32 (a ∷ b ∷ c ∷ d ∷ rest) = be32 a b c d
first32 _ = 0

-- The switch on the code of an option that is there in full.
unfoldable pub apply_option : Packet → ℕ → List ℕ → Packet
apply_option p code val =
    if code == opt_message_type
    then (if length val == 1 then record p { msg_type = elim val [ [] ↦ 0 | x ∷ xs ↦ x ] } else p)
    else if code == opt_requested_ip
    then (if length val == 4 then record p { req_ip = some (first32 val) } else p)
    else p

-- The loop over the options from `opts[i:]` on: with fuel, of which each round takes one.
unfoldable pub parse_options : ℕ → Packet → List ℕ → Packet
parse_options zero p opts = p
parse_options (suc fuel) p [] = p
parse_options (suc fuel) p (code ∷ []) =
    let more = parse_options fuel p [] in
    if code == opt_end then p else if code == opt_pad then more else p
parse_options (suc fuel) p (code ∷ len ∷ rest) =
    let padded = parse_options fuel p (len ∷ rest) in
    let more = parse_options fuel (apply_option p code (take len rest)) (drop len rest) in
    if code == opt_end
    then p
    else if code == opt_pad
    then padded
    else if ltb (length rest) len
    then p
    else more

-- The fixed fields.
unfoldable pub fixed_fields : List ℕ → Packet
fixed_fields b = record {
  op = elim b [ [] ↦ 0 | x ∷ xs ↦ x ];
  xid = first32 (drop 4 b);
  flags = first16 (drop 10 b);
  ci_addr = some (first32 (drop 12 b));
  yi_addr = some (first32 (drop 16 b));
  gi_addr = some (first32 (drop 24 b));
  ch_addr = take 6 (drop 28 b);
  msg_type = 0;
  req_ip = none;
}

-- `none` is either error.
unfoldable pub decode_packet : List ℕ → Option Packet
decode_packet b =
    if ltb (length b) dhcp_min_len
    then none
    else if not (first32 (drop 236 b) == dhcp_magic)
    then none
    else some (parse_options (length b) (fixed_fields b) (drop 240 b))

-- The four bytes of `To4()`, and what is copied where there is no IPv4 form.
abbrev pub to4_bytes : Option ℕ → List ℕ
to4_bytes none = []
to4_bytes (some v) = bytes32 v

abbrev pub to4_or_zero : Option ℕ → List ℕ
to4_or_zero none = 0 ∷ 0 ∷ 0 ∷ 0 ∷ []
to4_or_zero (some v) = bytes32 v

pub append_ip_opt : List ℕ → ℕ → Option ℕ → List ℕ
append_ip_opt opts code ip = (opts ++ (code ∷ 4 ∷ [])) ++ to4_or_zero ip

append_ips : List ℕ → List (Option ℕ) → List ℕ
append_ips opts [] = opts
append_ips opts (ip ∷ ips) = append_ips (opts ++ to4_or_zero ip) ips

pub append_ips_opt : List ℕ → ℕ → List (Option ℕ) → List ℕ
unfolding append_ips
append_ips_opt opts code ips = append_ips (opts ++ (code ∷ (4 * length ips) ∷ [])) ips

pub append_u32_opt : List ℕ → ℕ → ℕ → List ℕ
append_u32_opt opts code v = (opts ++ (code ∷ 4 ∷ [])) ++ bytes32 v

-- The fixed part of a reply.
pub encode_fixed : Packet → Option ℕ → List ℕ
encode_fixed p server_ip =
    let buf = copy_at (zeros dhcp_min_len) 0 (op_boot_reply ∷ 1 ∷ 6 ∷ 0 ∷ []) in
    let buf = put_be32 buf 4 p.xid in
    let buf = put_be16 buf 10 p.flags in
    let buf = copy_at buf 16 (to4_bytes p.yi_addr) in
    let buf = copy_at buf 20 (to4_bytes server_ip) in
    let buf = copy_at buf 24 (to4_bytes p.gi_addr) in
    let buf = if leb 6 (length p.ch_addr) then copy_at buf 28 (take 6 p.ch_addr) else buf in
    put_be32 buf 236 dhcp_magic

-- The options of a reply.
pub encode_options : ℕ → Option ℕ → Option ℕ → List ℕ
unfolding append_ip_opt append_ips_opt append_u32_opt
encode_options msg_type server_ip mask =
    let opts = opt_message_type ∷ 1 ∷ msg_type ∷ [] in
    let opts = append_ip_opt opts opt_server_id server_ip in
    let opts = append_u32_opt opts opt_lease_time lease_seconds in
    let opts = append_u32_opt opts opt_renewal_t1 (lease_seconds / 2) in
    let opts = append_u32_opt opts opt_rebinding_t2 (lease_seconds * 7 / 8) in
    let opts = append_ip_opt opts opt_subnet_mask mask in
    let opts = append_ip_opt opts opt_router server_ip in
    let opts = append_ips_opt opts opt_dns dns_servers in opts ++ (opt_end ∷ [])

pub encode : Packet → ℕ → Option ℕ → Option ℕ → List ℕ
encode p msg_type server_ip mask =
    encode_fixed p server_ip ++ encode_options msg_type server_ip mask

-- `dup4`
abbrev pub dup4 : Option ℕ → Option ℕ
dup4 none = some 0
dup4 (some v) = some v

pub reply_shell : Packet → Option ℕ → Packet
reply_shell p yi_addr = record {
  op = 0;
  xid = p.xid;
  flags = p.flags;
  ci_addr = none;
  yi_addr = dup4 yi_addr;
  gi_addr = dup4 p.gi_addr;
  ch_addr = p.ch_addr;
  msg_type = 0;
  req_ip = none;
}

-- `Equal`
abbrev pub ip_equal : Option ℕ → Option ℕ → Bool
ip_equal none none = true
ip_equal (some a) (some b) = a == b
ip_equal _ _ = false

abbrev is_some : Option ℕ → Bool
is_some none = false
is_some (some v) = true

-- The reply's type and packet; `none` where no reply is due.
pub handle : Packet → Option ℕ → Option (ℕ × Packet)
unfolding reply_shell
handle p offer =
    if p.msg_type == msg_discover
    then some (msg_offer, reply_shell p offer)
    else if p.msg_type == msg_request
    then (if is_some p.req_ip && not (ip_equal p.req_ip offer) && not (ip_equal p.ci_addr offer)
        then some (msg_nak, reply_shell p (some 0))
        else some (msg_ack, reply_shell p offer))
    else none
