-- ===== src/Conduit.antt =====
-- link/conduit.go: the doorbell. A session with unread letters is sent a frame, and again on a schedule
-- until its inbox is read.
pub mod Schedule
pub mod Inbox
pub mod Ring
pub mod Restore
pub mod Notify
pub mod Pace
pub mod Replay
pub mod Restart
