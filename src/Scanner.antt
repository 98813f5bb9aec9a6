-- ===== src/Scanner.antt =====
-- The scanner (server/scanner/, server/free_scan.js).
pub mod Regex
pub mod Finding
pub mod Rules
pub mod Result
pub mod Engine
pub mod Free
pub mod Mcp
