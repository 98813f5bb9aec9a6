-- ===== src/Client.antt =====
-- The client library (client/).
pub mod Answer
pub mod Lookup
pub mod Check
pub mod Gate
pub mod Cli
pub mod Agent
