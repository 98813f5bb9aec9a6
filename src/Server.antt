-- ===== src/Server.antt =====
-- The HTTP API (server/index.js). A handler takes the store and the request, and gives the store and
-- the response.
pub mod Http
pub mod Anchor
pub mod Chain
pub mod Rpc
pub mod RateLimit
pub mod Envio
pub mod Scan
pub mod Faucet
pub mod Receipts
pub mod Registry
