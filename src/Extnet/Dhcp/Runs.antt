-- ===== src/Extnet/Dhcp/Runs.antt =====
-- dhcp.go: an offer, written and read back.
use iolbox.Common.{◌≡◌, ◌++◌, [], ◌∷◌, none, some, arith, refl, drop}
use iolbox.Extnet.Dhcp.{Packet, encode, decode_packet, dup4, opt_end, op_boot_reply}
use iolbox.Extnet.Dhcp.Options.{field_bytes}
use iolbox.Extnet.Dhcp.Replies.{reply_items, decode_packet-encode}

abbrev offered : Packet
offered = record {
  op = 1;
  xid = 0x12345678;
  flags = 0x8000;
  ci_addr = none;
  yi_addr = some 0xac1f0164;
  gi_addr = none;
  ch_addr = 2 ∷ 0 ∷ 0 ∷ 0 ∷ 0 ∷ 9 ∷ [];
  msg_type = 1;
  req_ip = none;
}

decode_packet-encode_example :
    (decode_packet (encode offered 2 (some 0xac1f0101) (some 0xffffff00))
      ≡ some (record {
        op = op_boot_reply;
        xid = offered.xid;
        flags = offered.flags;
        ci_addr = some 0;
        yi_addr = dup4 offered.yi_addr;
        gi_addr = dup4 offered.gi_addr;
        ch_addr = offered.ch_addr;
        msg_type = 2;
        req_ip = none;
      }))
    × (drop 240 (encode offered 2 (some 0xac1f0101) (some 0xffffff00))
        ≡ field_bytes (reply_items 2 (some 0xac1f0101) (some 0xffffff00)) ++ (opt_end ∷ []))
decode_packet-encode_example =
    decode_packet-encode offered 2 (some 0xac1f0101) (some 0xffffff00) 2 0 0 0 0 9 refl
      (omega arith) (omega arith) (omega arith) (omega arith)
