-- ===== src/Wire.antt =====
-- link/protocol.go: the frames of the relay protocol and their payload codecs.
pub mod Codec
pub mod Frames
pub mod Messages
pub mod Digest
pub mod Offers
