-- ===== src/Fuse.antt =====
-- crates/tgcryptfs-fuse over crates/tgcryptfs-store: the inodes, their encrypted rows in the
-- database, the open handles, and the file system's requests.
pub mod Inode
pub mod BlockRows
pub mod Database
pub mod Store
pub mod Handles
pub mod Requests
pub mod Files
pub mod Blocks
pub mod Release
