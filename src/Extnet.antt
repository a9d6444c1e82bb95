-- ===== src/Extnet.antt =====
-- supervisor/internal/extnet: the network that a NAT node gives its lab.
pub mod Leaser
pub mod Dhcp
pub mod Server
