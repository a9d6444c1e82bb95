-- ===== src/Extnet/Server/Runs.antt =====
-- dhcp_linux.go: a client of the NAT network 172.31.1.0/24 that discovers its server and asks for the
-- address it was offered.
use iolbox.Common.{ℕ, ◌+◌, ◌≡◌, refl, false, ◌++◌, List, [], ◌∷◌, none, some, length}
use iolbox.Common.Bytes.{zeros, bytes16}
use iolbox.Nvram.{fold_carries, fold_fuel}
use iolbox.Extnet.Leaser.{new_leaser}
use iolbox.Extnet.Dhcp.{Packet}
use iolbox.Extnet.Server.{DhcpServer, build_frame, sum_pairs}
use iolbox.Extnet.Server.Wire.{target, target_mac, eth_bytes, ip_bytes, udp_bytes, build_frame_lem}

abbrev server : DhcpServer
server = record {
  server_ip = 0xac1f0101;
  mask = 0xffffff00;
  leaser = new_leaser 0xac1f0164 0xac1f01c7;
  server_ma = 0x02 ∷ 0x00 ∷ 172 ∷ 31 ∷ 1 ∷ 1 ∷ [];
}

abbrev client : List ℕ
client = 2 ∷ 0 ∷ 0 ∷ 0 ∷ 0 ∷ 9 ∷ []

-- A frame of the client to port 67 with the given options.
abbrev frame : List ℕ → List ℕ
frame opts =
    zeros 6
    ++ (client
        ++ (8
            ∷ 0
            ∷ (0x45
                ∷ (zeros 8
                    ++ (17
                        ∷ (zeros 10
                            ++ (0
                                ∷ 68
                                ∷ 0
                                ∷ 67
                                ∷ (bytes16 (8 + (240 + length opts))
                                    ++ (0
                                        ∷ 0
                                        ∷ (1 ∷ (zeros 235 ++ (99 ∷ 130 ∷ 83 ∷ 99 ∷ opts))))))))))))

abbrev discover : List ℕ
discover = frame (53 ∷ 1 ∷ 1 ∷ 255 ∷ [])

abbrev request : List ℕ
request = frame (53 ∷ 1 ∷ 3 ∷ 50 ∷ 4 ∷ 172 ∷ 31 ∷ 1 ∷ 100 ∷ 255 ∷ [])

abbrev discover_packet : Packet
discover_packet = record {
  op = 1;
  xid = 0;
  flags = 0;
  ci_addr = some 0;
  yi_addr = some 0;
  gi_addr = some 0;
  ch_addr = zeros 6;
  msg_type = 1;
  req_ip = none;
}

abbrev request_packet : Packet
request_packet = record discover_packet { msg_type = 3; req_ip = some 0xac1f0164 }

build_frame_lem_example :
    let ip = ip_bytes server.server_ip (target (some 0xac1f0164) false) 3 in
    (c : ℕ) × (build_frame server client (some 0xac1f0164) (1 ∷ 2 ∷ 3 ∷ []) false
      ≡ eth_bytes (target_mac (some 0xac1f0164) false client) server.server_ma
        ++ (ip c ++ (udp_bytes 3 ++ (1 ∷ 2 ∷ 3 ∷ []))))
    × (fold_carries fold_fuel (sum_pairs (ip c) 0) ≡ some 65535)
build_frame_lem_example =
    build_frame_lem server client (some 0xac1f0164) (1 ∷ 2 ∷ 3 ∷ []) false refl refl
