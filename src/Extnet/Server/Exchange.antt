-- ===== src/Extnet/Server/Exchange.antt =====
-- dhcp_linux.go: a client that discovers the server and then requests the address it was offered.
use iolbox.Common.{ℕ, ◌≡◌, leb, List, [], ◌∷◌, some, ◌%◌}
use iolbox.Extnet.Dhcp.{Packet, reply_shell, encode, flag_broadcast}
use iolbox.Extnet.Server.{DhcpServer, consume, build_frame}

-- Any frames, in order.
unfoldable pub consume_all : DhcpServer → List (List ℕ) → DhcpServer
consume_all d [] = d
consume_all d (frame ∷ frames) = consume_all (consume d frame).0 frames

-- The server's address, mask and MAC stay, and so does every lease.
record Kept (d d' : DhcpServer) : Type 0 where
  same_ip : d'.server_ip ≡ d.server_ip
  same_mask : d'.mask ≡ d.mask
  same_ma : d'.server_ma ≡ d.server_ma
  leases : (m u : ℕ) → d.leaser.by_mac m ≡ some u → d'.leaser.by_mac m ≡ some u

-- The frame by which the server answers a packet.
abbrev pub answer : DhcpServer → List ℕ → Packet → ℕ → ℕ → List ℕ
answer d src req reply_type u =
    build_frame d src (reply_shell req (some u)).yi_addr
      (encode (reply_shell req (some u)) reply_type (some d.server_ip) (some d.mask))
      (leb flag_broadcast (req.flags % 65536))
