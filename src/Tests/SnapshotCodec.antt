-- ===== src/Tests/SnapshotCodec.antt =====
-- A snapshot store for entries without captured states.
use tgcryptfs.Crypto.Aead.{Bytes, nonce_size}
use tgcryptfs.Common.Dict.{list_eq, nat_eq}
use tgcryptfs.Tests.Toy.{toy}
use tgcryptfs.Tests.ShareCodec.{sign, size_of, number, number-sign, toy_answered}
use tgcryptfs.Tests.SnapshotTable.{log_db}
use tgcryptfs.Records.Snapshots.{SnapshotStore}
use tgcryptfs.Records.Snapshots.Entries.{
  SnapshotOperation, creates, writes, deletes, makes_dir, removes_dir, links, symlinks, sets_attr,
  renames, restores, SnapshotEntry,
}
use tgcryptfs.Common.{
  zero, suc, ◌≡◌, refl, sym, Option, none, some, [], ◌∷◌, ◌++◌, arith, ◌==◌, if◌then◌else◌, length,
  take, drop, get_or, replicate, take-append_exact, drop-append_exact,
}

abbrev pub operation_code : SnapshotOperation → Bytes
operation_code creates = 0 ∷ []
operation_code writes = 1 ∷ []
operation_code deletes = 2 ∷ []
operation_code makes_dir = 3 ∷ []
operation_code removes_dir = 4 ∷ []
operation_code links = 5 ∷ []
operation_code symlinks = 6 ∷ []
operation_code sets_attr = 7 ∷ []
operation_code (renames old new_name) = 8 ∷ length old ∷ (old ++ new_name)
operation_code (restores n) = 9 ∷ n ∷ []

abbrev pub code_operation : Bytes → SnapshotOperation
code_operation (zero ∷ _) = creates
code_operation (suc n ∷ rest) =
    if n == 0
    then writes
    else if n == 1
    then deletes
    else if n == 2
    then makes_dir
    else if n == 3
    then removes_dir
    else if n == 4
    then links
    else if n == 5
    then symlinks
    else if n == 6
    then sets_attr
    else if n == 7
    then renames (take (get_or rest 0 0) (drop 1 rest)) (drop (get_or rest 0 0) (drop 1 rest))
    else restores (get_or rest 0 0)
code_operation _ = creates

code_operation-operation_code : (o : SnapshotOperation) → code_operation (operation_code o) ≡ o
code_operation-operation_code creates = refl
code_operation-operation_code writes = refl
code_operation-operation_code deletes = refl
code_operation-operation_code makes_dir = refl
code_operation-operation_code removes_dir = refl
code_operation-operation_code links = refl
code_operation-operation_code symlinks = refl
code_operation-operation_code sets_attr = refl
code_operation-operation_code (renames old new_name) =
    rw
      (
        take-append_exact (length old) old new_name refl,
        drop-append_exact (length old) old new_name refl,
      )
      refl
code_operation-operation_code (restores n) = refl

-- An entry without states and user, as numbers; others are not serialized.
abbrev pub pack_entry : SnapshotEntry → Bytes
pack_entry entry =
    entry.snapshot_id
    ∷ sign entry.timestamp
    ∷ size_of entry.timestamp
    ∷ entry.inode
    ∷ operation_code entry.operation

abbrev pub if_none : {A : Type 0} → Option A → Option Bytes → Option Bytes
if_none none bytes = bytes
if_none (some _) bytes = none

abbrev pub serialize_entry : SnapshotEntry → Option Bytes
serialize_entry entry =
    if_none entry.before (if_none entry.after (if_none entry.user_id (some (pack_entry entry))))

if_none_lem :
    {A : Type 0} (o : Option A) (inner : Option Bytes) (bytes : Bytes)
    → if_none o inner ≡ some bytes
    → (o ≡ none) × (inner ≡ some bytes)
if_none_lem none inner bytes h = (refl, h)
if_none_lem (some a) inner bytes h = absurd (ground arith)

abbrev pub unpack_entry : Bytes → Option SnapshotEntry
unpack_entry (id ∷ a ∷ b ∷ inode ∷ code) = some (record {
  snapshot_id = id;
  timestamp = number a b;
  operation = code_operation code;
  inode = inode;
  before = none;
  after = none;
  user_id = none;
})
unpack_entry _ = none

pub unpack_entry-serialize_entry :
    (entry : SnapshotEntry) (bytes : Bytes)
    → serialize_entry entry ≡ some bytes
    → unpack_entry bytes ≡ some entry
unpack_entry-serialize_entry entry bytes h =
    let (b, h1) =
      if_none_lem entry.before
        (if_none entry.after (if_none entry.user_id (some (pack_entry entry)))) bytes h in
    let (a, h2) =
      if_none_lem entry.after (if_none entry.user_id (some (pack_entry entry))) bytes h1 in
    let (u, h3) = if_none_lem entry.user_id (some (pack_entry entry)) bytes h2 in
    rw (toy_answered (pack_entry entry) bytes h3) (
      rw (number-sign entry.timestamp, code_operation-operation_code entry.operation)
        (λ i. some (record entry { before = sym b i; after = sym a i; user_id = sym u i })))

abbrev pub log_store : SnapshotStore
log_store = record {
  db = log_db;
  cipher = toy;
  meta_key = 1 ∷ [];
  nonce = λ n. replicate nonce_size n;
  sized = λ n. refl;
  serialize = serialize_entry;
  deserialize = unpack_entry;
  deserializes = unpack_entry-serialize_entry;
}
