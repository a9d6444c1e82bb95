-- ===== src/Relay/Classify/Total.antt =====
-- classify.go: no frame, however short or malformed, makes a classifier read out of bounds.
use iolbox.Common.{
  ℕ, zero, suc, ◌+◌, ◌%◌, ◌<◌, ◌≤◌, ◌≢◌, List, [], ◌∷◌, none, arith, length, >>=_total, Bool-cases,
  ltb, ◌==◌, inl, inr,
}
use iolbox.Relay.Classify.{
  Subtype, at, word, classify_arp, ipv4_ihl, second_byte, classify_ospf, classify_eigrp, icmp_at,
  classify_icmpv4, classify_ports, classify_bgp, bgp_behind, classify_transport, ipv4_transport,
  ipv4_proto, classify_ipv4, ipv6_next, classify_ipv6, classify_ether_type_detailed,
  classify_ether_type, classify_stp_subtype, classify_snap, classify_llc, classify_payload,
  classify_detailed,
}

at_in_range : (frame : List ℕ) (i : ℕ) → i < length frame → at frame i ≢ none
at_in_range [] i h = elim h [ ]
at_in_range (x ∷ xs) zero h = λ e. cc
at_in_range (x ∷ xs) (suc i) h = at_in_range xs i (omega arith)

word_in_range :
    (frame : List ℕ) (i j : ℕ) → i < length frame → j < length frame → word frame i j ≢ none
unfolding word
word_in_range frame i j p q = ground (arith, at_in_range frame i, at_in_range frame j)

arp_total : (frame : List ℕ) (l3 : ℕ) → classify_arp frame l3 ≢ none
unfolding classify_arp
arp_total frame l3 = ground (arith, word_in_range frame (l3 + 6) (l3 + 7))

ihl_total : (frame : List ℕ) (l3 : ℕ) → l3 < length frame → ipv4_ihl frame l3 ≢ none
unfolding ipv4_ihl
ihl_total frame l3 h = ground (arith, at_in_range frame l3)

second_byte_total :
    (decode : ℕ → Subtype) (frame : List ℕ) (l4 : ℕ) → second_byte decode frame l4 ≢ none
unfolding second_byte
second_byte_total decode frame l4 = ground (arith, at_in_range frame (l4 + 1))

ospf_total : (frame : List ℕ) (l3 : ℕ) → l3 < length frame → classify_ospf frame l3 ≢ none
unfolding classify_ospf
ospf_total frame l3 h = >>=_total _ _ (ihl_total frame l3 h) (λ ihl. second_byte_total _ frame _)

eigrp_total : (frame : List ℕ) (l3 : ℕ) → l3 < length frame → classify_eigrp frame l3 ≢ none
unfolding classify_eigrp
eigrp_total frame l3 h = >>=_total _ _ (ihl_total frame l3 h) (λ ihl. second_byte_total _ frame _)

icmp_at_total : (frame : List ℕ) (l4 : ℕ) → icmp_at frame l4 ≢ none
unfolding icmp_at
icmp_at_total frame l4 = ground (arith, at_in_range frame l4)

icmpv4_total : (frame : List ℕ) (l3 : ℕ) → l3 < length frame → classify_icmpv4 frame l3 ≢ none
unfolding classify_icmpv4
icmpv4_total frame l3 h = >>=_total _ _ (ihl_total frame l3 h) (λ ihl. icmp_at_total frame _)

ports_total : (proto : ℕ) (frame : List ℕ) (l4 : ℕ) → classify_ports proto frame l4 ≢ none
unfolding classify_ports
ports_total proto frame l4 =
    ground (arith, word_in_range frame l4 (l4 + 1), word_in_range frame (l4 + 2) (l4 + 3))

bgp_total : (frame : List ℕ) (hdr : ℕ) → classify_bgp frame hdr ≢ none
unfolding classify_bgp
bgp_total frame hdr = ground (arith, at_in_range frame (hdr + 18))

bgp_behind_total : (frame : List ℕ) (l4 : ℕ) → bgp_behind frame l4 ≢ none
unfolding bgp_behind
bgp_behind_total frame l4 = grind (arith, at_in_range frame (l4 + 12), bgp_total)

transport_total : (proto : ℕ) (frame : List ℕ) (l4 : ℕ) → classify_transport proto frame l4 ≢ none
unfolding classify_transport
transport_total proto frame l4 =
    >>=_total _ _ (ports_total proto frame l4) (λ l. ground (arith, bgp_behind_total frame l4))

ipv4_transport_total :
    (proto : ℕ) (frame : List ℕ) (l3 : ℕ)
    → l3 + 8 ≤ length frame
    → ipv4_transport proto frame l3 ≢ none
unfolding ipv4_transport
ipv4_transport_total proto frame l3 h =
    >>=_total _ _ (word_in_range frame (l3 + 6) (l3 + 7) (omega arith) (omega arith)) (λ flags.
      elim (Bool-cases (flags % 8192 == 0)) [
        | inl e ↦ rw e (
            >>=_total _ _ (ihl_total frame l3 (omega arith)) (λ ihl. transport_total proto frame _))
        | inr e ↦ rw e (λ p. cc)
      ])

ipv4_proto_total :
    (proto : ℕ) (frame : List ℕ) (l3 : ℕ)
    → l3 + 10 ≤ length frame
    → ipv4_proto proto frame l3 ≢ none
unfolding ipv4_proto
ipv4_proto_total proto frame l3 h = ground (
  arith,
  icmpv4_total frame l3,
  ipv4_transport_total proto frame l3,
  eigrp_total frame l3,
  ospf_total frame l3,
)

ipv4_total : (frame : List ℕ) (l3 : ℕ) → classify_ipv4 frame l3 ≢ none
unfolding classify_ipv4
ipv4_total frame l3 = elim (Bool-cases (ltb (length frame) (l3 + 10))) [
  | inl e ↦ rw e (λ p. cc)
  | inr e ↦ rw e (
      >>=_total _ _ (at_in_range frame (l3 + 9) (ground arith))
        (λ proto. ipv4_proto_total proto frame l3 (ground arith)))
]

ipv6_total : (frame : List ℕ) (l3 : ℕ) → classify_ipv6 frame l3 ≢ none
unfolding classify_ipv6
ipv6_total frame l3 = elim (Bool-cases (ltb (length frame) (l3 + 7))) [
  | inl e ↦ rw e (λ p. cc)
  | inr e ↦ rw e (
      >>=_total _ _ (at_in_range frame (l3 + 6) (ground arith))
        (λ next. unfold ipv6_next in ground (arith, transport_total next frame (l3 + 40))))
]

ether_type_total :
    (et : ℕ) (frame : List ℕ) (l3 : ℕ) → classify_ether_type_detailed et frame l3 ≢ none
unfolding classify_ether_type_detailed
ether_type_total et frame l3 =
    ground (arith, arp_total frame l3, ipv4_total frame l3, ipv6_total frame l3)

stp_total : (frame : List ℕ) (l3 : ℕ) → classify_stp_subtype frame l3 ≢ none
unfolding classify_stp_subtype
stp_total frame l3 = ground (arith, at_in_range frame (l3 + 6))

snap_total : (frame : List ℕ) (l3 : ℕ) → classify_snap frame l3 ≢ none
unfolding classify_snap classify_ether_type
snap_total frame l3 = grind (
  arith,
  at_in_range frame (l3 + 3),
  at_in_range frame (l3 + 4),
  at_in_range frame (l3 + 5),
  word_in_range frame (l3 + 6) (l3 + 7),
  ether_type_total,
)

llc_total : (frame : List ℕ) (l3 : ℕ) → classify_llc frame l3 ≢ none
unfolding classify_llc
llc_total frame l3 = ground (
  arith,
  at_in_range frame l3,
  at_in_range frame (l3 + 1),
  at_in_range frame (l3 + 2),
  snap_total frame l3,
)

payload_total : (et : ℕ) (frame : List ℕ) (l3 : ℕ) → classify_payload et frame l3 ≢ none
unfolding classify_payload
payload_total et frame l3 =
    ground (arith, ether_type_total et frame l3, llc_total frame l3, stp_total frame l3)

-- Every frame is classified: no list of bytes makes `ClassifyDetailed` read past its end.
pub classify_detailed_total : (frame : List ℕ) → classify_detailed frame ≢ none
unfolding classify_detailed
classify_detailed_total frame =
    grind (arith, word_in_range frame 12 13, word_in_range frame 16 17, payload_total)
