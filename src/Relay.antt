-- ===== src/Relay.antt =====
-- link/pump.go: one relay connection, its handshake, its reader and its sender.
pub mod State
pub mod Handshake
pub mod Reader
pub mod Pending
pub mod Promises
pub mod Named
pub mod Stored
pub mod Sender
pub mod Exchange
pub mod Network
pub mod Turns
pub mod Order
pub mod Delivery
pub mod NoLoss
