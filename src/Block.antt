-- ===== src/Block.antt =====
-- crates/tgcryptfs-core/src/block: manifests, chunking, the block format and deduplication.
pub mod Manifest
pub mod Cdc
pub mod Srb1
pub mod Dedup
