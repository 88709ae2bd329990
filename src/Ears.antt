-- ===== src/Ears.antt =====
-- link/ears.go: the listener snapshot `conduit@<node>.ear` of a node.
pub mod Snapshot
pub mod Records
pub mod Parse
pub mod Identities
pub mod Invariant
pub mod Accepted
pub mod Sequence
pub mod Format
pub mod Order
pub mod Bounds
