-- ===== src/Relay/Classify.antt =====
-- supervisor/internal/relay/classify.go: the protocol label and subtype of an ethernet frame.
-- A frame is a list of bytes, and `frame[i]` is `at frame i`, where `none` is Go's index panic; so a
-- classifier returns an `Option`. The label and subtype strings are the constructors of two types,
-- and `no_subtype` is the empty string. `uint16(a)<<8 | uint16(b)` is `be16 a b`.
pub mod Total
pub mod Window
pub mod Vlan
pub mod Ports
mod Runs
use iolbox.Common.{
  ℕ, ◌+◌, ◌*◌, ◌/◌, ◌%◌, Bool, true, false, ◌&&◌, ◌||◌, ltb, leb, ◌==◌, if◌then◌else◌, List, Option,
  some, none, length, get_elem?, ◌>>=◌, not,
}
use native.Mathlib.Decide.{ℕ_discrete}
use iolbox.Common.Bytes.{be16}

pub data Label : Type 0 where
  other arp ipv4 ipv6 lldp loop mpls igmp gre esp ah eigrp ospf pim vrrp : Label
  ping icmp icmpv6 tcp udp bgp tacacs rip vxlan radius llc stp isis cdp vtp dtp : Label
  -- fmt.Sprintf("0x%04x", et)
  hex : ℕ → Label

pub data Subtype : Type 0 where
  no_subtype request reply hello db_desc ls_request ls_update ls_ack update query : Subtype
  bgp_open notification keepalive route_refresh : Subtype
  echo_request echo_reply unreachable redirect time_exceeded other_icmp : Subtype
  config tcn rstp : Subtype

pub Label-discrete : Discrete Label
Label-discrete = hlevel ℕ_discrete

pub Subtype-discrete : Discrete Subtype
Subtype-discrete = hlevel

abbrev pub at : List ℕ → ℕ → Option ℕ
at = get_elem?

-- The two bytes at `i` and `j` as one big-endian number.
pub word : List ℕ → ℕ → ℕ → Option ℕ
word frame i j = do hi ← at frame i; lo ← at frame j; some (be16 hi lo)

arp_op : ℕ → Subtype
arp_op op =
    if op == 1 then Subtype.request else if op == 2 then Subtype.reply else Subtype.no_subtype

classify_arp : List ℕ → ℕ → Option Subtype
classify_arp frame l3 =
    if ltb (length frame) (l3 + 8)
    then some Subtype.no_subtype
    else do op ← word frame (l3 + 6) (l3 + 7); some (arp_op op)

-- `int(frame[l3]&0x0f) * 4`, at least 20
header_len : ℕ → ℕ
header_len b = if ltb (b % 16 * 4) 20 then 20 else b % 16 * 4

ipv4_ihl : List ℕ → ℕ → Option ℕ
ipv4_ihl frame l3 = do b ← at frame l3; some (header_len b)

ospf_type : ℕ → Subtype
ospf_type t =
    if t == 1
    then Subtype.hello
    else if t == 2
    then Subtype.db_desc
    else if t == 3
    then Subtype.ls_request
    else if t == 4
    then Subtype.ls_update
    else if t == 5
    then Subtype.ls_ack
    else Subtype.no_subtype

eigrp_opcode : ℕ → Subtype
eigrp_opcode t =
    if t == 1
    then Subtype.update
    else if t == 2
    then Subtype.request
    else if t == 3
    then Subtype.query
    else if t == 4
    then Subtype.reply
    else if t == 5
    then Subtype.hello
    else Subtype.no_subtype

-- The second byte behind the IPv4 header, decoded: the common part of OSPF and EIGRP.
second_byte : (ℕ → Subtype) → List ℕ → ℕ → Option Subtype
second_byte decode frame l4 =
    if ltb (length frame) (l4 + 2)
    then some Subtype.no_subtype
    else do t ← at frame (l4 + 1); some (decode t)

classify_ospf : List ℕ → ℕ → Option Subtype
classify_ospf frame l3 = do ihl ← ipv4_ihl frame l3; second_byte ospf_type frame (l3 + ihl)

classify_eigrp : List ℕ → ℕ → Option Subtype
classify_eigrp frame l3 = do ihl ← ipv4_ihl frame l3; second_byte eigrp_opcode frame (l3 + ihl)

icmp_type : ℕ → Label × Subtype
icmp_type t =
    if t == 8
    then (Label.ping, Subtype.echo_request)
    else if t == 0
    then (Label.ping, Subtype.echo_reply)
    else if t == 3
    then (Label.icmp, Subtype.unreachable)
    else if t == 5
    then (Label.icmp, Subtype.redirect)
    else if t == 11
    then (Label.icmp, Subtype.time_exceeded)
    else (Label.icmp, Subtype.other_icmp)

icmp_at : List ℕ → ℕ → Option (Label × Subtype)
icmp_at frame l4 =
    if ltb (length frame) (l4 + 1)
    then some (Label.icmp, Subtype.no_subtype)
    else do t ← at frame l4; some (icmp_type t)

classify_icmpv4 : List ℕ → ℕ → Option (Label × Subtype)
classify_icmpv4 frame l3 = do ihl ← ipv4_ihl frame l3; icmp_at frame (l3 + ihl)

pub transport_name : ℕ → Label
transport_name proto = if proto == 6 then Label.tcp else Label.udp

abbrev either_is : ℕ → ℕ → ℕ → Bool
either_is src dst p = src == p || dst == p

-- `none` is the empty string.
tcp_port : ℕ → ℕ → Option Label
tcp_port src dst =
    if either_is src dst 179
    then some Label.bgp
    else if either_is src dst 49
    then some Label.tacacs
    else none

udp_port : ℕ → ℕ → Option Label
udp_port src dst =
    if either_is src dst 520
    then some Label.rip
    else if either_is src dst 4789
    then some Label.vxlan
    else if either_is src dst 1812
        || either_is src dst 1813
        || either_is src dst 1645
        || either_is src dst 1646
    then some Label.radius
    else none

abbrev label_or : Option Label → Label → Label
label_or none d = d
label_or (some l) d = l

-- The tail of `classifyPorts`, once the ports are read.
pub port_label : ℕ → ℕ → ℕ → Label
unfolding tcp_port udp_port
port_label proto src dst =
    if proto == 6
    then label_or (tcp_port src dst) Label.tcp
    else label_or (udp_port src dst) Label.udp

pub classify_ports : ℕ → List ℕ → ℕ → Option Label
classify_ports proto frame l4 =
    if ltb (length frame) (l4 + 4) then some (transport_name proto) else do
      src ← word frame l4 (l4 + 1)
      dst ← word frame (l4 + 2) (l4 + 3)
      some (port_label proto src dst)

bgp_type : ℕ → Subtype
bgp_type t =
    if t == 1
    then Subtype.bgp_open
    else if t == 2
    then Subtype.update
    else if t == 3
    then Subtype.notification
    else if t == 4
    then Subtype.keepalive
    else if t == 5
    then Subtype.route_refresh
    else Subtype.no_subtype

classify_bgp : List ℕ → ℕ → Option Subtype
classify_bgp frame hdr =
    if ltb (length frame) (hdr + 19)
    then some Subtype.no_subtype
    else do t ← at frame (hdr + 18); some (bgp_type t)

abbrev is_bgp : Label → Bool
is_bgp Label.bgp = true
is_bgp _ = false

-- The BGP header behind a TCP header of at least 20 bytes.
bgp_behind : List ℕ → ℕ → Option Subtype
bgp_behind frame l4 =
    if leb (l4 + 13) (length frame)
    then (do
      b ← at frame (l4 + 12)
      if leb 20 (b / 16 * 4) then classify_bgp frame (l4 + b / 16 * 4) else some Subtype.no_subtype)
    else some Subtype.no_subtype

classify_transport : ℕ → List ℕ → ℕ → Option (Label × Subtype)
classify_transport proto frame l4 = do
  label ← classify_ports proto frame l4
  subtype ← if is_bgp label then bgp_behind frame l4 else some Subtype.no_subtype
  some (label, subtype)

abbrev plain : Label → Option (Label × Subtype)
plain l = some (l, Subtype.no_subtype)

-- case 6, 17 of `classifyIPv4`
ipv4_transport : ℕ → List ℕ → ℕ → Option (Label × Subtype)
ipv4_transport proto frame l3 = do
  flags ← word frame (l3 + 6) (l3 + 7)
  if not (flags % 8192 == 0)
      then plain (transport_name proto)
      else do ihl ← ipv4_ihl frame l3; classify_transport proto frame (l3 + ihl)

labelled : Label → Option Subtype → Option (Label × Subtype)
labelled l s = do t ← s; some (l, t)

ipv4_proto : ℕ → List ℕ → ℕ → Option (Label × Subtype)
unfolding labelled
ipv4_proto proto frame l3 =
    if proto == 1
    then classify_icmpv4 frame l3
    else if proto == 2
    then plain Label.igmp
    else if proto == 6 || proto == 17
    then ipv4_transport proto frame l3
    else if proto == 47
    then plain Label.gre
    else if proto == 50
    then plain Label.esp
    else if proto == 51
    then plain Label.ah
    else if proto == 88
    then labelled Label.eigrp (classify_eigrp frame l3)
    else if proto == 89
    then labelled Label.ospf (classify_ospf frame l3)
    else if proto == 103
    then plain Label.pim
    else if proto == 112
    then plain Label.vrrp
    else plain Label.ipv4

classify_ipv4 : List ℕ → ℕ → Option (Label × Subtype)
classify_ipv4 frame l3 =
    if ltb (length frame) (l3 + 10)
    then plain Label.ipv4
    else do proto ← at frame (l3 + 9); ipv4_proto proto frame l3

ipv6_next : ℕ → List ℕ → ℕ → Option (Label × Subtype)
ipv6_next next frame l3 =
    if next == 6 || next == 17
    then classify_transport next frame (l3 + 40)
    else if next == 50
    then plain Label.esp
    else if next == 51
    then plain Label.ah
    else if next == 58
    then plain Label.icmpv6
    else if next == 88
    then plain Label.eigrp
    else if next == 89
    then plain Label.ospf
    else plain Label.ipv6

classify_ipv6 : List ℕ → ℕ → Option (Label × Subtype)
classify_ipv6 frame l3 =
    if ltb (length frame) (l3 + 7)
    then plain Label.ipv6
    else do next ← at frame (l3 + 6); ipv6_next next frame l3

classify_ether_type_detailed : ℕ → List ℕ → ℕ → Option (Label × Subtype)
unfolding labelled
classify_ether_type_detailed et frame l3 =
    if et == 0x0806
    then labelled Label.arp (classify_arp frame l3)
    else if et == 0x0800
    then classify_ipv4 frame l3
    else if et == 0x86dd
    then classify_ipv6 frame l3
    else if et == 0x88cc
    then plain Label.lldp
    else if et == 0x9000
    then plain Label.loop
    else if et == 0x8847
    then plain Label.mpls
    else plain (Label.hex et)

classify_ether_type : ℕ → List ℕ → ℕ → Option Label
classify_ether_type et frame l3 = do
  (label, _) ← classify_ether_type_detailed et frame l3
  some label

bpdu_type : ℕ → Subtype
bpdu_type t =
    if t == 0x00
    then Subtype.config
    else if t == 0x80
    then Subtype.tcn
    else if t == 0x02
    then Subtype.rstp
    else Subtype.no_subtype

classify_stp_subtype : List ℕ → ℕ → Option Subtype
classify_stp_subtype frame l3 =
    if ltb (length frame) (l3 + 7)
    then some Subtype.no_subtype
    else do t ← at frame (l3 + 6); some (bpdu_type t)

cisco_pid : ℕ → Label
cisco_pid pid =
    if pid == 0x2000
    then Label.cdp
    else if pid == 0x2003
    then Label.vtp
    else if pid == 0x2004
    then Label.dtp
    else Label.llc

-- The SNAP header behind AA AA 03.
classify_snap : List ℕ → ℕ → Option Label
classify_snap frame l3 = if ltb (length frame) (l3 + 8) then some Label.llc else do
  o0 ← at frame (l3 + 3)
  o1 ← at frame (l3 + 4)
  o2 ← at frame (l3 + 5)
  pid ← word frame (l3 + 6) (l3 + 7)
  if o0 == 0x00 && o1 == 0x00 && o2 == 0x0c
      then some (cisco_pid pid)
      else if o0 == 0x00 && o1 == 0x00 && o2 == 0x00
      then classify_ether_type pid frame (l3 + 8)
      else some Label.llc

classify_llc : List ℕ → ℕ → Option Label
classify_llc frame l3 = if ltb (length frame) (l3 + 3) then some Label.llc else do
  dsap ← at frame l3
  ssap ← at frame (l3 + 1)
  ctrl ← at frame (l3 + 2)
  if dsap == 0x42 && ssap == 0x42
      then some Label.stp
      else if dsap == 0xfe && ssap == 0xfe
      then some Label.isis
      else if dsap == 0xaa && ssap == 0xaa && ctrl == 0x03
      then classify_snap frame l3
      else some Label.llc

abbrev is_stp : Label → Bool
is_stp Label.stp = true
is_stp _ = false

-- From the ethertype on: the part that a VLAN tag only moves.
pub classify_payload : ℕ → List ℕ → ℕ → Option (Label × Subtype)
classify_payload et frame l3 =
    if leb 0x0600 et then classify_ether_type_detailed et frame l3 else do
      label ← classify_llc frame l3
      subtype ← if is_stp label then classify_stp_subtype frame l3 else some Subtype.no_subtype
      some (label, subtype)

abbrev tagged_as : Bool → Option (Label × Subtype) → Option (Label × Subtype × Bool)
tagged_as t r = do (label, subtype) ← r; some (label, subtype, t)

-- Behind an 802.1Q tag.
classify_tagged : List ℕ → Option (Label × Subtype × Bool)
classify_tagged frame =
    if ltb (length frame) 18
    then some (Label.other, Subtype.no_subtype, true)
    else do et ← word frame 16 17; tagged_as true (classify_payload et frame 18)

pub classify_detailed : List ℕ → Option (Label × Subtype × Bool)
unfolding classify_tagged
classify_detailed frame =
    if ltb (length frame) 14 then some (Label.other, Subtype.no_subtype, false) else do
      et ← word frame 12 13
      if et == 0x8100 then classify_tagged frame else tagged_as false (classify_payload et frame 14)

pub classify : List ℕ → Option (Label × Bool)
classify frame = do (label, _, tagged) ← classify_detailed frame; some (label, tagged)
