-- ===== src/Extnet/Dhcp/Policy.antt =====
-- dhcp.go: what `Handle` answers to a discovery and to a request.
use iolbox.Common.{ℕ, ◌≡◌, ◌≢◌, false, ==_refl, ==_ne, some, arith}
use iolbox.Extnet.Dhcp.{
  Packet, handle, reply_shell, msg_discover, msg_request, msg_offer, msg_ack, msg_nak, ip_equal,
}

pub handle-offer :
    (p : Packet) (u : ℕ)
    → p.msg_type ≡ msg_discover
    → handle p (some u) ≡ some (msg_offer, reply_shell p (some u))
unfolding handle
handle-offer p u t = ground arith

pub handle-ack :
    (p : Packet) (u : ℕ)
    → p.msg_type ≡ msg_request
    → p.req_ip ≡ some u
    → handle p (some u) ≡ some (msg_ack, reply_shell p (some u))
unfolding handle
handle-ack p u t r = rw (t, r, ==_refl u)

pub handle-nak :
    (p : Packet) (u v : ℕ)
    → p.msg_type ≡ msg_request
    → p.req_ip ≡ some v
    → v ≢ u
    → ip_equal p.ci_addr (some u) ≡ false
    → handle p (some u) ≡ some (msg_nak, reply_shell p (some 0))
unfolding handle
handle-nak p u v t r n c = rw (t, r, ==_ne v u n, c)
