-- ===== src/Install.antt =====
-- link/install.go: the receiving side of the relay. Where an offered object goes, when it is too old
-- or too new, and how its bytes reach the mailbox without overwriting another object.
pub mod Files
pub mod Destination
pub mod Objects
pub mod Epochs
pub mod Quarantine
pub mod Presence
pub mod Receive
pub mod Staging
pub mod Immutable
pub mod Mailbox
