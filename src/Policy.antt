-- ===== src/Policy.antt =====
-- crates/tgcryptfs-core/src/policy: mutability policies with path patterns.
pub mod Glob
pub mod Engine
pub mod Strings
pub mod Parser
