-- ===== src/Records/Snapshots/Entries.antt =====
-- crates/tgcryptfs-core/src/snapshot/entry.rs and log.rs: the entries. `timestamp` is an i128 of
-- nanoseconds; the column of its seconds is an i64.
use tgcryptfs.Crypto.Aead.{Bytes}
use tgcryptfs.Block.Manifest.{FileManifest}
use tgcryptfs.Fuse.Inode.{Inode}
use tgcryptfs.Fuse.BlockRows.{ℤ, pos, negsuc}
use tgcryptfs.Common.{ℕ, zero, suc, ◌+◌, ◌-◌, ◌/◌, ◌%◌, ◌^◌, Option, ltb, if◌then◌else◌, u64_mod}

pub data SnapshotOperation : Type 0 where
  creates writes deletes makes_dir removes_dir links symlinks sets_attr : SnapshotOperation
  renames : Bytes → Bytes → SnapshotOperation
  restores : ℕ → SnapshotOperation

pub record SnapshotState : Type 0 where
  pub inode_snapshot : Inode
  pub manifest : Option FileManifest

pub record SnapshotEntry : Type 0 where
  pub snapshot_id : ℕ
  pub timestamp : ℤ
  pub operation : SnapshotOperation
  pub inode : ℕ
  pub before : Option SnapshotState
  pub after : Option SnapshotState
  pub user_id : Option Bytes

-- `now` is the clock in nanoseconds.
abbrev pub create_entry :
    ℕ
    → ℕ
    → SnapshotOperation
    → ℕ
    → Option SnapshotState
    → Option SnapshotState
    → Option Bytes
    → SnapshotEntry
create_entry now snapshot_id operation inode before after user_id = record {
  snapshot_id = snapshot_id;
  timestamp = pos now;
  operation = operation;
  inode = inode;
  before = before;
  after = after;
  user_id = user_id;
}

abbrev pub capture_state : Inode → SnapshotState
capture_state inode = record { inode_snapshot = inode; manifest = inode.manifest }

abbrev pub minus : ℕ → ℤ
minus zero = pos 0
minus (suc n) = negsuc n

-- `/ 1_000_000_000` on i128, which rounds towards zero
abbrev pub whole_seconds : ℤ → ℤ
whole_seconds (pos n) = pos (n / 1000000000)
whole_seconds (negsuc n) = minus ((n + 1) / 1000000000)

-- The i64 with these 64 bits.
abbrev pub signed : ℕ → ℤ
signed n = if ltb n (2 ^ 63) then pos n else negsuc (u64_mod - 1 - n)

-- `as i64`
unfoldable pub as_i64 : ℤ → ℤ
as_i64 (pos n) = signed (n % u64_mod)
as_i64 (negsuc n) = signed (u64_mod - 1 - n % u64_mod)

unfoldable pub seconds_of : SnapshotEntry → ℤ
seconds_of entry = as_i64 (whole_seconds entry.timestamp)
