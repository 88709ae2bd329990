-- ===== src/Triage.antt =====
-- link/triage.go: the advisory triage of letters.
pub mod Conf
pub mod Thresholds
pub mod Letters
pub mod Engine
pub mod Workers
pub mod Busy
pub mod Exclusive
pub mod Reservations
pub mod Budget
pub mod Settled
pub mod Keeping
pub mod Once
pub mod Tries
pub mod Garbage
pub mod Frame
pub mod Counts
