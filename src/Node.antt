-- ===== src/Node.antt =====
-- supervisor/internal/node: the lifecycle of a node, the console ports and the console hub.
pub mod State
pub mod Ports
pub mod ConsoleHub
