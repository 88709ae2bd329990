-- ===== src/Examples.antt =====
-- Runs of the code at concrete values: a letter from the node adun to the node probe.
mod Data
mod Mail
mod Links
mod Frames
mod Chat
mod Configs
mod Delivery
mod Bell
mod Owners
mod Parents
mod Updates
mod Retrying
mod Judging
mod Listening
mod Scanning
