-- ===== src/Gateway.antt =====
-- The chat gateway: link/gateway.go.
pub mod Split
pub mod Letters
pub mod Posts
pub mod Queue
pub mod Once
pub mod Status
pub mod Inbound
pub mod Offsets
pub mod Spacing
