-- ===== src/Tests/Snapshots.antt =====
-- The snapshot store, run.
use mathlib.Core.List.{Permᴰ}
use tgcryptfs.Crypto.Aead.{encrypt, decrypt}
use tgcryptfs.Common.Dict.{list_eq, nat_eq}
use tgcryptfs.Fuse.Store.{Session, decimal}
use tgcryptfs.Sharing.{is_after}
use tgcryptfs.Records.Snapshots.{
  Descending, append, inserted, sealed_entry, get_snapshot, list_for_inode, list_recent,
  try_decrypt_entry, entries_for,
}
use tgcryptfs.Records.Snapshots.Entries.{writes, SnapshotEntry, seconds_of, as_i64, create_entry}
use tgcryptfs.Records.Snapshots.Lists.{append_all, logged, Lists, append_all-Lists}
use tgcryptfs.Records.Snapshots.Ids.{get_snapshot-append}
use tgcryptfs.Common.{
  ℕ, ◌≡◌, refl, Bool, true, false, none, some, List, [], ◌∷◌, ◌++◌, ok, take, drop,
}
use tgcryptfs.Tests.SnapshotTable.{LogConn}
use tgcryptfs.Tests.SnapshotCodec.{log_store}

abbrev entry_at : ℕ → ℕ → SnapshotEntry
entry_at now ino = create_entry now 1 writes ino none none none

abbrev no_log : List Bool → Session LogConn
no_log faults = record { conn = ([], 0, faults); drawn = 0 }

-- Two entries of the fifth inode; the second append fails.
abbrev entries : List SnapshotEntry
entries = entry_at 7000000000 5 ∷ entry_at 8000000000 5 ∷ entry_at 9000000000 5 ∷ []

abbrev log_after : Session LogConn
log_after = append_all log_store entries (no_log (false ∷ true ∷ []))

newest_first :
    list_for_inode log_store 5 log_after ≡ ok (entry_at 9000000000 5 ∷ entry_at 7000000000 5 ∷ [])
unfolding append_all append inserted sealed_entry encrypt seconds_of as_i64 is_after list_for_inode
    try_decrypt_entry decrypt entries_for decimal
newest_first = refl

append_all-Lists_example :
    Lists log_store
      (entry_at 7000000000 5 ∷ entry_at 9000000000 5 ∷ [])
      (list_for_inode log_store 5 log_after)
    × ((latest : List SnapshotEntry) × (list_recent log_store 1 log_after ≡ ok (take 1 latest))
        × Permᴰ (entry_at 7000000000 5 ∷ entry_at 9000000000 5 ∷ []) latest
        × Descending seconds_of latest)
unfolding append_all append inserted sealed_entry encrypt seconds_of as_i64 is_after logged decimal
append_all-Lists_example =
    append_all-Lists log_store entries (no_log (false ∷ true ∷ [])) [] 5 1
      (drop 1 log_after.conn.0 ++ take 1 log_after.conn.0) (drop 1 log_after.conn.0) tt refl refl

get_snapshot-append_example :
    get_snapshot log_store 1 5 (
      append_all log_store
        (drop 1 entries)
        (append log_store (entry_at 7000000000 5) (no_log [])).0)
    ≡ ok (some (entry_at 7000000000 5))
unfolding append_all append inserted sealed_entry encrypt seconds_of as_i64 decimal
get_snapshot-append_example =
    get_snapshot-append log_store (entry_at 7000000000 5) (drop 1 entries) (no_log []) 1
      (take 1
        (append_all log_store (drop 1 entries)
          (append log_store (entry_at 7000000000 5) (no_log [])).0).conn.0)
      refl refl
