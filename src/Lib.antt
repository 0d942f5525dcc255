-- ===== src/Lib.antt =====
-- tgcryptfs: an encrypted filesystem that stores its blocks as Telegram messages.
--
-- The program cuts a file into chunks (crates/tgcryptfs-core/src/block/cdc.rs), encrypts a chunk as
-- a block (block/srb1.rs over crypto/aead.rs), counts the references to a block by the hash of its
-- content (block/dedup.rs), lists a file's blocks in a manifest (block/pointer.rs), keeps blocks
-- that were downloaded in a local cache (crates/tgcryptfs-cache/src/block_cache.rs), and decides by
-- policies what may be written and deleted (crates/tgcryptfs-core/src/policy). The requests of the
-- kernel (crates/tgcryptfs-fuse/src/fs.rs) work on inodes that are encrypted rows of a database
-- (crates/tgcryptfs-store/src/inode_store.rs) and on open handles (handle.rs). A dead man's switch
-- (crates/tgcryptfs-deadman) runs a destruction sequence when a trigger fires. A reference of 32 bytes
-- can be spoken as 22 words (crates/tgcryptfs-core/src/sentence), and a volume can be shared by
-- invites (crates/tgcryptfs-sharing, stored by tgcryptfs-store/src/sharing_store.rs and served by
-- tgcryptfs-api/src/service/sharing.rs). A volume's keys are derived from its password
-- (crates/tgcryptfs-core/src/volume/manager.rs), and the service keeps the open volumes
-- (crates/tgcryptfs-api/src/service/session.rs). This library models these parts and states what
-- makes them correct.
--
-- Files:
--   Common        shared names, Boolean tests, lists, results, and a map as an association list
--   Crypto/Aead   crypto/aead.rs: `encrypt` and `decrypt` over an abstract cipher
--   Api           tgcryptfs-api/src/error.rs; Sessions is service/session.rs, Volumes is
--                 service/volume.rs, Auth is server/auth.rs, Switch is service/deadman.rs beside the
--                 rounds of the daemon
--   Block         core/src/block: Manifest is pointer.rs, Cdc is cdc.rs, Srb1 is srb1.rs, Dedup is
--                 dedup.rs; the modules below each hold its proofs
--   Cache         tgcryptfs-cache/src/block_cache.rs; Invariant, Eviction, Spoiled,
--                 Writes and Reads prove
--   Deadman       tgcryptfs-deadman/src: Triggers is hooks/mod.rs, Destroy is destroy.rs, Daemon is
--                 trigger.rs and daemon.rs
--   Fuse          Inode is core/src/metadata, Database and Store are tgcryptfs-store/src/migrations.rs
--                 and inode_store.rs, BlockRows and Blocks are the table of blocks and
--                 block_store.rs, Handles is tgcryptfs-fuse/src/handle.rs; Requests (names and
--                 directories), Requests/Rename and Files (reads and writes) and Release
--                 (setattr, and the flush of a handle) are the handlers of tgcryptfs-fuse/src/fs.rs
--   Policy        core/src/policy: Glob is the matcher of types.rs, Engine is engine.rs, Parser is
--                 parser.rs over the methods of `str` in Strings
--   Records       tgcryptfs-store/src: the encrypted tables of user_store.rs, policy_store.rs,
--                 volume_store.rs and deadman_store.rs over one generic table, which Refinement
--                 compares with a table in the clear; Snapshots is core/src/snapshot and
--                 snapshot_store.rs
--   Sentence      core/src/sentence: encode.rs, decode.rs, validate.rs and wordlists.rs
--   Sharing       tgcryptfs-sharing/src/access.rs and invite.rs; Keys is key_exchange.rs over
--                 core/src/crypto/mlkem.rs, Database and Store are the tables and
--                 tgcryptfs-store/src/sharing_store.rs, Service is tgcryptfs-api/src/service/sharing.rs
--   Shredding     the overwriting and removal of files in core/src/volume/manager.rs and
--                 tgcryptfs-deadman/src/destroy.rs
--   Volume        core/src/volume/config.rs and manager.rs with core/src/crypto/kdf.rs and keys.rs;
--                 Compare, Opening and Roots prove
--   Tests         runs on concrete inputs, and every result at a concrete input
--
-- Conventions: a struct is a record and a method returns the new record. u64 and u32 arithmetic
-- wraps, as in the release profile; theorems state the bounds under which it does not. A byte is a
-- number, a text a list of characters. Foreign code is a parameter: the cipher (the record `Cipher`
-- with the laws of an AEAD), BLAKE3, `hex::encode`, the f64 logarithm of `mask_from_target`,
-- postcard, the transport's upload and download, ML-KEM (the record `Kem`), Argon2id, HKDF and JSON
-- (the record `Crates`), the file system (the record `Io`), and SQLite (the records `Sqlite`,
-- `ShareDb`, `TableDb` and `SnapshotDb`: which statements fail is free, one that works has the effect
-- of its text, one that fails may roll an open transaction back, and rows come in any order where the
-- text asks for none). Random nonces and the outcomes of disk operations are arguments.
--
-- Fuel: the chunking loop has one round more than the data have bytes, and each round moves on by
-- a byte at least; the eviction loop has one round more than the cache has entries, and each round
-- removes one; the loop over the rules of a policy has one round more than the text has characters,
-- and each round takes one. That the fuel is enough is part of the results below.
--
-- Not modelled: compression and hashing (calls of other crates), the opaque names of tables and
-- columns (a statement is modelled by its effect), the tables of manifests, of path policies and of
-- the audit log (no operation uses them), the list of the volumes, the data of the word lists, the
-- Telegram client, the HTTP routes and the command line (I/O and glue), threads but for the two
-- steps in which a session is opened and for the daemon of the dead man's switch.
pub mod Common
pub mod Crypto
pub mod Api
pub mod Block
pub mod Cache
pub mod Deadman
pub mod Fuse
pub mod Policy
pub mod Records
pub mod Sentence
pub mod Sharing
pub mod Shredding
pub mod Volume
mod Tests
