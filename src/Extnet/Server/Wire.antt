-- ===== src/Extnet/Server/Wire.antt =====
-- dhcp_linux.go: the headers of the frames that the server sends.
use iolbox.Common.{
  ℕ, ◌+◌, ◌-◌, ◌%◌, ◌<◌, ◌≤◌, ◌≡◌, refl, sym, ap, ◌∙◌, Bool, true, false, ◌||◌, if◌then◌else◌, ◌==◌,
  List, [], ◌∷◌, ◌++◌, length, take, Option, some, none, arith,
}
use iolbox.Common.Bytes.{be16, copy_at, put_be16, zeros, bytes16, bytes32}
use iolbox.Nvram.{fold_carries, fold_fuel}
use iolbox.Nvram.Checksum.{fold_carries_lem, fold_complement, word_sum}
use iolbox.Extnet.Server.{
  DhcpServer, sum_pairs, ip_checksum, complement, ip_header, udp_header, build_frame,
  is_zero_or_none, ether_type_ipv4,
}

-- With no wrap the loop sums the words of a list of even length.
sum_pairs-word_sum :
    (d : List ℕ) (s : ℕ)
    → length d % 2 ≡ 0
    → s + word_sum d < 4294967296
    → sum_pairs d s ≡ s + word_sum d
unfolding sum_pairs word_sum
sum_pairs-word_sum [] s even h = omega arith
sum_pairs-word_sum (a ∷ []) s even h = absurd (omega (arith, even))
sum_pairs-word_sum (a ∷ b ∷ rest) s even h =
    let e : (s + be16 a b) % 4294967296 ≡ s + be16 a b = omega arith in
    rw e (omega (arith, sum_pairs-word_sum rest (s + be16 a b) (omega (arith, even)) (omega arith)))

word_sum-ip_header-le : (server_ip dst n : ℕ) → word_sum (ip_header server_ip (some dst) n) ≤ 655350
unfolding word_sum ip_header
word_sum-ip_header-le server_ip dst n = omega arith

word_sum-put_be16 :
    (server_ip dst n c : ℕ)
    → c < 65536
    → word_sum (put_be16 (ip_header server_ip (some dst) n) 10 c)
      ≡ word_sum (ip_header server_ip (some dst) n) + c
unfolding word_sum ip_header
word_sum-put_be16 server_ip dst n c h = omega arith

length-ip_header :
    (server_ip dst n c : ℕ) → length (put_be16 (ip_header server_ip (some dst) n) 10 c) ≡ 20
unfolding ip_header
length-ip_header server_ip dst n c = refl

length-ip_header_bare : (server_ip dst n : ℕ) → length (ip_header server_ip (some dst) n) ≡ 20
unfolding ip_header
length-ip_header_bare server_ip dst n = refl

ip_checksum-folded :
    (ip : List ℕ) (s r : ℕ)
    → sum_pairs ip 0 ≡ s
    → fold_carries fold_fuel s ≡ some r
    → r < 65536
    → ip_checksum ip ≡ 65535 - r
unfolding ip_checksum complement
ip_checksum-folded ip s r sum folded h = rw (sum, folded) (omega (arith, h))

ip_checksum_verifies :
    (server_ip dst n : ℕ)
    → let ip = ip_header server_ip (some dst) n in
      fold_carries fold_fuel (sum_pairs (put_be16 ip 10 (ip_checksum ip)) 0) ≡ some 65535
ip_checksum_verifies server_ip dst n =
    let ip = ip_header server_ip (some dst) n in
    let s = word_sum ip in
    let small = word_sum-ip_header-le server_ip dst n in
    let (r, folded, f) = fold_carries_lem s (omega (arith, small)) in
    let before : sum_pairs ip 0 ≡ s = omega (
      arith,
      sum_pairs-word_sum ip 0 (omega (arith, length-ip_header_bare server_ip dst n))
          (omega (arith, small)),
    ) in
    let c = 65535 - r in
    let sum : ip_checksum ip ≡ c =
      ip_checksum-folded ip s r before folded (omega (arith, f.fits)) in
    let filled = put_be16 ip 10 c in
    let after : sum_pairs filled 0 ≡ s + c = omega (
      arith,
      sum_pairs-word_sum filled 0 (omega (arith, length-ip_header server_ip dst n c))
          (omega (arith, word_sum-put_be16 server_ip dst n c (omega arith), small)),
      word_sum-put_be16 server_ip dst n c (omega arith),
    ) in
    rw (sum, after) (fold_complement s r (omega (arith, small)) folded)

-- Where a reply goes: to everyone, when the client asked for it or has no address yet.
abbrev pub target : Option ℕ → Bool → ℕ
target none broadcast = 0xffffffff
target (some v) broadcast = if broadcast || v == 0 then 0xffffffff else v

dst_target :
    (yi_addr : Option ℕ) (broadcast : Bool)
    → (if broadcast || is_zero_or_none yi_addr then some 0xffffffff else yi_addr)
      ≡ some (target yi_addr broadcast)
dst_target none false = refl
dst_target none true = refl
dst_target (some v) broadcast = ground arith

-- The hardware address that belongs to it.
abbrev pub target_mac : Option ℕ → Bool → List ℕ → List ℕ
target_mac none broadcast mac = 255 ∷ 255 ∷ 255 ∷ 255 ∷ 255 ∷ 255 ∷ []
target_mac (some v) broadcast mac =
    if broadcast || v == 0 then 255 ∷ 255 ∷ 255 ∷ 255 ∷ 255 ∷ 255 ∷ [] else mac

dst_mac_target :
    (yi_addr : Option ℕ) (broadcast : Bool) (mac : List ℕ)
    → (if broadcast || is_zero_or_none yi_addr then 255 ∷ 255 ∷ 255 ∷ 255 ∷ 255 ∷ 255 ∷ [] else mac)
      ≡ target_mac yi_addr broadcast mac
dst_mac_target none false mac = refl
dst_mac_target none true mac = refl
dst_mac_target (some v) broadcast mac = refl

target_mac-six :
    (yi_addr : Option ℕ) (broadcast : Bool) (mac : List ℕ)
    → length mac ≡ 6
    → length (target_mac yi_addr broadcast mac) ≡ 6
target_mac-six none broadcast mac h = refl
target_mac-six (some v) broadcast mac h = ground (arith, h)

-- The Ethernet header: destination, source, and the type of IPv4.
abbrev pub eth_bytes : List ℕ → List ℕ → List ℕ
eth_bytes dst src = dst ++ (src ++ (0x08 ∷ 0x00 ∷ []))

-- The IPv4 header of a UDP packet with `n` bytes of payload, with the checksum `c`: version and header
-- length, total length, no fragments, a time to live of 64, the protocol, and the addresses.
abbrev pub ip_bytes : ℕ → ℕ → ℕ → ℕ → List ℕ
ip_bytes src dst n c =
    0x45
    ∷ 0
    ∷ (bytes16 ((28 + n) % 65536)
        ++ (0 ∷ 0 ∷ 0 ∷ 0 ∷ 64 ∷ 17 ∷ (bytes16 c ++ (bytes32 src ++ bytes32 dst))))

-- The UDP header: from port 67 to port 68, the length, and no checksum.
abbrev pub udp_bytes : ℕ → List ℕ
udp_bytes n = 0 ∷ 67 ∷ 0 ∷ 68 ∷ (bytes16 ((8 + n) % 65536) ++ (0 ∷ 0 ∷ []))

ip_header-bytes :
    (src dst n c : ℕ) → put_be16 (ip_header src (some dst) n) 10 c ≡ ip_bytes src dst n c
unfolding ip_header
ip_header-bytes src dst n c = refl

udp_header-bytes : (n : ℕ) → udp_header n ≡ udp_bytes n
unfolding udp_header
udp_header-bytes n = refl

six : (m : List ℕ) → length m ≡ 6 → (a b c d e f : ℕ) × (m ≡ a ∷ b ∷ c ∷ d ∷ e ∷ f ∷ [])
six [] h = absurd (omega (arith, h))
six (a ∷ []) h = absurd (omega (arith, h))
six (a ∷ b ∷ []) h = absurd (omega (arith, h))
six (a ∷ b ∷ c ∷ []) h = absurd (omega (arith, h))
six (a ∷ b ∷ c ∷ d ∷ []) h = absurd (omega (arith, h))
six (a ∷ b ∷ c ∷ d ∷ e ∷ []) h = absurd (omega (arith, h))
six (a ∷ b ∷ c ∷ d ∷ e ∷ f ∷ []) h = (a, b, c, d, e, f, refl)
six (a ∷ b ∷ c ∷ d ∷ e ∷ f ∷ g ∷ m) h = absurd (omega (arith, h))

eth_header :
    (dst src : List ℕ)
    → length dst ≡ 6
    → length src ≡ 6
    → put_be16 (copy_at (copy_at (zeros 14) 0 (take 6 dst)) 6 (take 6 src)) 12 ether_type_ipv4
      ≡ eth_bytes dst src
eth_header dst src hd hs =
    let (a, b, c, d, e, f, p) = six dst hd in
    let (g, h, i, j, k, l, q) = six src hs in rw (p, q) refl

-- Every frame that the server builds, for hardware addresses of six bytes, byte for byte: an Ethernet
-- header from the server to the client, or to everyone when the client asked for it or has no address
-- yet; an IPv4 header from the server to the client's address, or to 255.255.255.255 in the same cases;
-- a UDP header from port 67 to port 68; and the payload. The length fields count the headers and the
-- payload, modulo 2^16, and the 16-bit words of the IPv4 header sum up, with the carries folded in, to
-- 0xFFFF, which is what a receiver verifies.
pub build_frame_lem :
    (d : DhcpServer) (mac : List ℕ) (yi_addr : Option ℕ) (payload : List ℕ) (broadcast : Bool)
    → length mac ≡ 6
    → length d.server_ma ≡ 6
    → let ip = ip_bytes d.server_ip (target yi_addr broadcast) (length payload) in
      (c : ℕ) × (build_frame d mac yi_addr payload broadcast
        ≡ eth_bytes (target_mac yi_addr broadcast mac) d.server_ma
          ++ (ip c ++ (udp_bytes (length payload) ++ payload)))
      × (fold_carries fold_fuel (sum_pairs (ip c) 0) ≡ some 65535)
unfolding build_frame
build_frame_lem d mac yi_addr payload broadcast hm hs =
    let n = length payload in
    let dst = target yi_addr broadcast in
    let to_mac = target_mac yi_addr broadcast mac in
    let ip = ip_header d.server_ip (some dst) n in
    let c = ip_checksum ip in
    (
      c,
      rw
          (
            dst_target yi_addr broadcast,
            dst_mac_target yi_addr broadcast mac,
            eth_header to_mac d.server_ma (target_mac-six yi_addr broadcast mac hm) hs,
            ip_header-bytes d.server_ip dst n c,
            udp_header-bytes n,
          )
          refl,
      ap (λ (h : List ℕ). fold_carries fold_fuel (sum_pairs h 0))
            (sym (ip_header-bytes d.server_ip dst n c))
          ∙ ip_checksum_verifies d.server_ip dst n,
    )
