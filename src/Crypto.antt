-- ===== src/Crypto.antt =====
-- crates/tgcryptfs-core/src/crypto.
pub mod Aead
