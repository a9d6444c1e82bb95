-- ===== src/Iouyap.antt =====
-- supervisor/internal/iouyap: the netio framing of IOL's unix sockets.
pub mod Header
