-- ===== src/Extnet/Server.antt =====
-- supervisor/internal/extnet/dhcp_linux.go: the DHCP server on the frames of a lab node. A server keeps
-- its addresses as uint32s and its leaser; `some` and `none` of a reply are the source's slice and nil.
pub mod Exchange
pub mod Wire
mod Runs
use iolbox.Common.{
  ℕ, zero, suc, ◌+◌, ◌-◌, ◌*◌, ◌/◌, ◌%◌, ◌^◌, Bool, true, false, not, ◌&&◌, ◌||◌, ltb, leb, ◌==◌,
  if◌then◌else◌, List, [], ◌∷◌, ◌++◌, length, take, drop, get_elem?, Option, some, none, ◌>>=◌,
}
use iolbox.Common.Bytes.{be16, bytes16, bytes32, zeros, copy_at, put_be16}
use iolbox.Nvram.{fold_carries, fold_fuel}
use iolbox.Extnet.Leaser.{Leaser, new_leaser, lease}
use iolbox.Extnet.Dhcp.{
  Packet, first16, decode_packet, handle, encode, op_boot_request, to4_bytes, flag_broadcast,
}

abbrev pub eth_hdr_len : ℕ
eth_hdr_len = 14

abbrev pub ip_hdr_len : ℕ
ip_hdr_len = 20

abbrev pub udp_hdr_len : ℕ
udp_hdr_len = 8

abbrev pub ether_type_ipv4 : ℕ
ether_type_ipv4 = 0x0800

abbrev pub ip_proto_udp : ℕ
ip_proto_udp = 17

abbrev pub dhcp_server_port : ℕ
dhcp_server_port = 67

abbrev pub dhcp_client_port : ℕ
dhcp_client_port = 68

pub record DhcpServer : Type 0 where
  pub server_ip : ℕ
  pub mask : ℕ
  pub leaser : Leaser
  pub server_ma : List ℕ

-- The address always has an IPv4 form here.
pub gateway_mac : ℕ → List ℕ
gateway_mac ip = 0x02 ∷ 0x00 ∷ bytes32 ip

-- The pool's first and last address are those that `Subnet` derives.
pub new_dhcp_server : ℕ → ℕ → ℕ → DhcpServer
new_dhcp_server gateway pool_start pool_end = record {
  server_ip = gateway;
  mask = 0xffffff00;
  leaser = new_leaser pool_start pool_end;
  server_ma = gateway_mac gateway;
}

-- The checks of `parseDHCP` from the UDP header on.
pub parse_udp : List ℕ → List ℕ → Option (Packet × List ℕ)
parse_udp src udp =
    let ulen = first16 (drop 4 udp) in
    if not (first16 (drop 2 udp) == dhcp_server_port)
    then none
    else if ltb ulen udp_hdr_len || ltb (length udp) ulen
    then none
    else do
      p ← decode_packet (take (ulen - udp_hdr_len) (drop udp_hdr_len udp))
      if p.op == op_boot_request then some (p, src) else none

-- Those on the IPv4 header: `ip[0]` and `ip[9]` are there, as the frame has 42 bytes at least.
pub parse_ip : List ℕ → List ℕ → Option (Packet × List ℕ)
parse_ip src ip = do
  first ← get_elem? ip 0
  proto ← get_elem? ip 9
  let ihl = first % 16 * 4
  if ltb ihl ip_hdr_len || ltb (length ip) (ihl + udp_hdr_len)
      then none
      else if not (proto == ip_proto_udp)
      then none
      else parse_udp src (drop ihl ip)

-- The packet and the frame's source; `none` is `ok=false`.
pub parse_dhcp : List ℕ → Option (Packet × List ℕ)
parse_dhcp frame =
    if ltb (length frame) (eth_hdr_len + ip_hdr_len + udp_hdr_len)
    then none
    else if not (first16 (drop 12 frame) == ether_type_ipv4)
    then none
    else parse_ip (take 6 (drop 6 frame)) (drop eth_hdr_len frame)

-- The loop of `ipChecksum`, in pairs of bytes: an odd last one is left out. The sum is a uint32.
pub sum_pairs : List ℕ → ℕ → ℕ
sum_pairs (a ∷ b ∷ rest) sum = sum_pairs rest ((sum + be16 a b) % 2 ^ 32)
sum_pairs _ sum = sum

-- `^uint16(sum)`; `fold_carries` is the same loop on the carries, with the same three rounds.
complement : Option ℕ → ℕ
complement none = 0
complement (some sum) = 65535 - sum % 65536

pub ip_checksum : List ℕ → ℕ
unfolding complement
ip_checksum hdr = complement (fold_carries fold_fuel (sum_pairs hdr 0))

abbrev is_zero_or_none : Option ℕ → Bool
is_zero_or_none none = true
is_zero_or_none (some v) = v == 0

-- The 20 bytes of the IPv4 header before the checksum is written.
pub ip_header : ℕ → Option ℕ → ℕ → List ℕ
ip_header server_ip dst payload_len =
    let ip = copy_at (zeros 20) 0 (0x45 ∷ []) in
    let ip = put_be16 ip 2 ((ip_hdr_len + udp_hdr_len + payload_len) % 65536) in
    let ip = copy_at ip 8 (64 ∷ ip_proto_udp ∷ []) in
    let ip = copy_at ip 12 (bytes32 server_ip) in copy_at ip 16 (to4_bytes dst)

pub udp_header : ℕ → List ℕ
udp_header payload_len =
    let udp = put_be16 (zeros 8) 0 dhcp_server_port in
    let udp = put_be16 udp 2 dhcp_client_port in
    put_be16 udp 4 ((udp_hdr_len + payload_len) % 65536)

-- The frame's four parts, which stand behind one another in the buffer of the source.
pub build_frame : DhcpServer → List ℕ → Option ℕ → List ℕ → Bool → List ℕ
build_frame d client_mac yi_addr payload broadcast =
    let all = broadcast || is_zero_or_none yi_addr in
    let dst_mac = if all then 255 ∷ 255 ∷ 255 ∷ 255 ∷ 255 ∷ 255 ∷ [] else client_mac in
    let dst_ip = if all then some 0xffffffff else yi_addr in
    let eth =
      put_be16 (copy_at (copy_at (zeros 14) 0 (take 6 dst_mac)) 6 (take 6 d.server_ma)) 12
        ether_type_ipv4 in
    let ip = ip_header d.server_ip dst_ip (length payload) in
    eth ++ (put_be16 ip 10 (ip_checksum ip) ++ (udp_header (length payload) ++ payload))

-- A MAC address as the key of the leaser.
abbrev pub mac_key : List ℕ → ℕ
mac_key [] = 0
mac_key (b ∷ bs) = b * 256 ^ length bs + mac_key bs

consume_reply : DhcpServer → List ℕ → Packet → Option (ℕ × Packet) → Option (List ℕ)
consume_reply d src req none = none
consume_reply d src req (some (reply_type, r)) = some (
    build_frame d src r.yi_addr (encode r reply_type (some d.server_ip) (some d.mask))
      (leb flag_broadcast (req.flags % 65536)))

consume_parsed : DhcpServer → Option (Packet × List ℕ) → DhcpServer × Option (List ℕ) × Bool
unfolding consume_reply
consume_parsed d none = (d, none, false)
consume_parsed d (some (req, src)) =
    let (leaser, offer) = lease d.leaser (mac_key src) in
    (record d { leaser = leaser }, consume_reply d src req (handle req (some offer)), true)

-- The server after a frame, its reply, and whether the frame was its own.
pub consume : DhcpServer → List ℕ → DhcpServer × Option (List ℕ) × Bool
unfolding consume_parsed
consume d frame = consume_parsed d (parse_dhcp frame)
