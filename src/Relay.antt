-- ===== src/Relay.antt =====
-- supervisor/internal/relay: what a capture of the UDP data plane shows and writes.
pub mod Classify
pub mod Pcapng
