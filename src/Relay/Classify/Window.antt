-- ===== src/Relay/Classify/Window.antt =====
-- classify.go: a classifier looks at the frame from its offset on only, so two frames with the same
-- bytes from there are classified alike.
use iolbox.Common.{
  ℕ, ◌+◌, ◌*◌, ◌/◌, ◌%◌, ◌≡◌, ap, List, Option, some, arith, length, >>=_cong, Bool-cases, ltb, leb,
  ◌==◌, inl, inr, if◌then◌else◌,
}
use native.Mathlib.Nat.{add_assoc, add-zero}
use iolbox.Relay.Classify.{
  Label, Subtype, at, word, classify_arp, ipv4_ihl, second_byte, classify_ospf, classify_eigrp,
  icmp_at, classify_icmpv4, classify_ports, classify_bgp, bgp_behind, classify_transport,
  ipv4_transport, ipv4_proto, classify_ipv4, ipv6_next, classify_ipv6, classify_ether_type_detailed,
  classify_ether_type, classify_stp_subtype, classify_snap, classify_llc, classify_payload, plain,
}

-- `f` from `a` on is `g` from `b` on.
pub record Window (f g : List ℕ) (a b : ℕ) : Type 0 where
  pub len : length f + b ≡ length g + a
  pub same : (i : ℕ) → at f (a + i) ≡ at g (b + i)

module _ (f g : List ℕ) where
  Window-here : (a b : ℕ) → Window f g a b → at f a ≡ at g b
  Window-here a b w = simp add-zero at (w.same 0)

  Window-on : (a b : ℕ) → Window f g a b → (k : ℕ) → Window f g (a + k) (b + k)
  Window-on a b w k = record {
    len = omega (arith, w.len);
    same = λ i. simp add_assoc (w.same (k + i));
  }

  word-Window :
      (a b : ℕ) → Window f g a b → (i j : ℕ) → word f (a + i) (a + j) ≡ word g (b + i) (b + j)
  unfolding word
  word-Window a b w i j = rw (w.same i, w.same j)

  arp-Window : (a b : ℕ) → Window f g a b → classify_arp f a ≡ classify_arp g b
  unfolding classify_arp
  arp-Window a b w = ground (arith, w.len, word-Window a b w 6 7)

  ihl-Window : (a b : ℕ) → Window f g a b → ipv4_ihl f a ≡ ipv4_ihl g b
  unfolding ipv4_ihl
  ihl-Window a b w = rw (Window-here a b w)

  second_byte-Window :
      (d : ℕ → Subtype) (a b : ℕ) → Window f g a b → second_byte d f a ≡ second_byte d g b
  unfolding second_byte
  second_byte-Window d a b w = ground (arith, w.len, w.same 1)

  ospf-Window : (a b : ℕ) → Window f g a b → classify_ospf f a ≡ classify_ospf g b
  unfolding classify_ospf
  ospf-Window a b w =
      >>=_cong (ihl-Window a b w) (λ k. second_byte-Window _ _ _ (Window-on a b w k))

  eigrp-Window : (a b : ℕ) → Window f g a b → classify_eigrp f a ≡ classify_eigrp g b
  unfolding classify_eigrp
  eigrp-Window a b w =
      >>=_cong (ihl-Window a b w) (λ k. second_byte-Window _ _ _ (Window-on a b w k))

  icmp_at-Window : (a b : ℕ) → Window f g a b → icmp_at f a ≡ icmp_at g b
  unfolding icmp_at
  icmp_at-Window a b w = ground (arith, w.len, Window-here a b w)

  icmpv4-Window : (a b : ℕ) → Window f g a b → classify_icmpv4 f a ≡ classify_icmpv4 g b
  unfolding classify_icmpv4
  icmpv4-Window a b w = >>=_cong (ihl-Window a b w) (λ k. icmp_at-Window _ _ (Window-on a b w k))

  ports-Window :
      (proto a b : ℕ) → Window f g a b → classify_ports proto f a ≡ classify_ports proto g b
  unfolding classify_ports
  ports-Window proto a b w =
      let first : word f a (a + 1) ≡ word g b (b + 1) = simp add-zero at (word-Window a b w 0 1) in
      ground (arith, w.len, first, word-Window a b w 2 3)

  bgp-Window : (a b : ℕ) → Window f g a b → classify_bgp f a ≡ classify_bgp g b
  unfolding classify_bgp
  bgp-Window a b w = ground (arith, w.len, w.same 18)

  bgp_behind-Window : (a b : ℕ) → Window f g a b → bgp_behind f a ≡ bgp_behind g b
  unfolding bgp_behind
  bgp_behind-Window a b w =
      let go : leb (a + 13) (length f) ≡ leb (b + 13) (length g) = ground (arith, w.len) in
      rw go (
        ap (λ (t : Option Subtype). if leb (b + 13) (length g) then t else some Subtype.no_subtype)
          (>>=_cong (w.same 12) (λ x.
            ap (λ (t : Option Subtype). if leb 20 (x / 16 * 4) then t else some Subtype.no_subtype)
              (bgp-Window _ _ (Window-on a b w (x / 16 * 4))))))

  transport-Window :
      (proto a b : ℕ) → Window f g a b → classify_transport proto f a ≡ classify_transport proto g b
  unfolding classify_transport
  transport-Window proto a b w = rw (ports-Window proto a b w, bgp_behind-Window a b w)

  ipv4_transport-Window :
      (proto a b : ℕ) → Window f g a b → ipv4_transport proto f a ≡ ipv4_transport proto g b
  unfolding ipv4_transport
  ipv4_transport-Window proto a b w = >>=_cong (word-Window a b w 6 7) (λ flags.
      elim (Bool-cases (flags % 8192 == 0)) [
        | inl e ↦
            rw e (>>=_cong (ihl-Window a b w) (λ k. transport-Window proto _ _ (Window-on a b w k)))
        | inr e ↦ rw e
      ])

  ipv4_proto-Window : (proto a b : ℕ) → Window f g a b → ipv4_proto proto f a ≡ ipv4_proto proto g b
  unfolding ipv4_proto
  ipv4_proto-Window proto a b w = rw (
    icmpv4-Window a b w,
    ipv4_transport-Window proto a b w,
    eigrp-Window a b w,
    ospf-Window a b w,
  )

  ipv4-Window : (a b : ℕ) → Window f g a b → classify_ipv4 f a ≡ classify_ipv4 g b
  unfolding classify_ipv4
  ipv4-Window a b w =
      let short : ltb (length f) (a + 10) ≡ ltb (length g) (b + 10) = ground (arith, w.len) in
      rw short (
        ap
          (λ (t : Option (Label × Subtype)).
            if ltb (length g) (b + 10) then plain Label.ipv4 else t)
          (>>=_cong (w.same 9) (λ proto. ipv4_proto-Window proto a b w)))

  ipv6-Window : (a b : ℕ) → Window f g a b → classify_ipv6 f a ≡ classify_ipv6 g b
  unfolding classify_ipv6 ipv6_next
  ipv6-Window a b w =
      let short : ltb (length f) (a + 7) ≡ ltb (length g) (b + 7) = ground (arith, w.len) in
      rw short (
        ap
          (λ (t : Option (Label × Subtype)). if ltb (length g) (b + 7) then plain Label.ipv6 else t)
          (>>=_cong (w.same 6) (λ next. rw (transport-Window next _ _ (Window-on a b w 40)))))

  ether_type-Window :
      (et a b : ℕ)
      → Window f g a b
      → classify_ether_type_detailed et f a ≡ classify_ether_type_detailed et g b
  unfolding classify_ether_type_detailed
  ether_type-Window et a b w = rw (arp-Window a b w, ipv4-Window a b w, ipv6-Window a b w)

  stp-Window : (a b : ℕ) → Window f g a b → classify_stp_subtype f a ≡ classify_stp_subtype g b
  unfolding classify_stp_subtype
  stp-Window a b w = ground (arith, w.len, w.same 6)

  snap-Window : (a b : ℕ) → Window f g a b → classify_snap f a ≡ classify_snap g b
  unfolding classify_snap classify_ether_type
  snap-Window a b w =
      let short : ltb (length f) (a + 8) ≡ ltb (length g) (b + 8) = ground (arith, w.len) in
      let deeper = λ (pid : ℕ). ether_type-Window pid _ _ (Window-on a b w 8) in
      rw (short, w.same 3, w.same 4, w.same 5, word-Window a b w 6 7) (simp deeper)

  llc-Window : (a b : ℕ) → Window f g a b → classify_llc f a ≡ classify_llc g b
  unfolding classify_llc
  llc-Window a b w = ground (arith, w.len, Window-here a b w, w.same 1, w.same 2, snap-Window a b w)

  pub payload-Window :
      (et a b : ℕ) → Window f g a b → classify_payload et f a ≡ classify_payload et g b
  unfolding classify_payload
  payload-Window et a b w = rw (ether_type-Window et a b w, llc-Window a b w, stp-Window a b w)
