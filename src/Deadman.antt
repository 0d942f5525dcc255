-- ===== src/Deadman.antt =====
-- crates/tgcryptfs-deadman: the triggers, the destruction sequence, the controller and the daemon.
pub mod Triggers
pub mod Destroy
pub mod Daemon
