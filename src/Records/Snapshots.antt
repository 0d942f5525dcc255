-- ===== src/Records/Snapshots.antt =====
-- crates/tgcryptfs-store/src/snapshot_store.rs: a log of encrypted entries under row ids that SQLite
-- gives out. An inode number goes through an i64 column and back unchanged.
pub mod Entries
pub mod Orders
pub mod Lists
pub mod Ids
use mathlib.Core.List.{Permᴰ}
use tgcryptfs.Crypto.Aead.{Bytes, Cipher, nonce_size, encrypt, decrypt}
use tgcryptfs.Fuse.Store.{Session, StoreError, sql, to_sql, from_sql, decimal}
use tgcryptfs.Fuse.BlockRows.{ℤ}
use tgcryptfs.Sharing.{is_after}
use Entries.{SnapshotEntry, seconds_of}
use tgcryptfs.Common.{
  ℕ, ◌+◌, ◌<◌, ◌≡◌, Bool, true, false, Option, none, some, List, [], ◌∷◌, ◌++◌, ◌==◌, if◌then◌else◌,
  Result, ok, err, ◌>>=◌, ◌>>◌, length, take, filterb, All,
}

pub record SnapshotRow : Type 0 where
  pub sid : ℕ
  pub seconds : ℤ
  pub contents : Bytes
  pub ino : ℕ

pub data SnapshotQuery : Type 0 where
  by_sid : ℕ → SnapshotQuery
  of_inode : ℕ → SnapshotQuery
  recent : ℕ → SnapshotQuery

-- ORDER BY .. DESC
abbrev pub Descending : {X : Type 0} → (X → ℤ) → List X → Type 0
Descending f [] = Unit
Descending f (x ∷ xs) = All (λ y. is_after (f y) (f x) ≡ false) xs × Descending f xs

-- What SQLite may answer; of rows with the same seconds the order is open.
abbrev pub Answers : SnapshotQuery → List SnapshotRow → List SnapshotRow → Type 0
Answers (by_sid sid) rows found = found ≡ filterb (λ (r : SnapshotRow). r.sid == sid) rows
Answers (of_inode ino) rows found =
    Permᴰ (filterb (λ (r : SnapshotRow). r.ino == ino) rows) found
    × Descending (λ (r : SnapshotRow). r.seconds) found
Answers (recent limit) rows found =
    (ordered : List SnapshotRow) × Permᴰ rows ordered
    × Descending (λ (r : SnapshotRow). r.seconds) ordered
    × (found ≡ take limit ordered)

-- An INSERT that works adds its row under an id above all others, which is the last id given out.
pub record SnapshotDb : Type 1 where
  pub Conn : Type 0
  pub rows : Conn → List SnapshotRow
  pub insert : ℤ → Bytes → ℕ → Conn → Conn × Bool
  pub last_insert_rowid : Conn → ℕ
  pub query : SnapshotQuery → Conn → Option (List SnapshotRow)
  pub inserts :
      (seconds : ℤ) (contents : Bytes) (ino : ℕ) (c : Conn)
      → (insert seconds contents ino c).1 ≡ true
      → rows (insert seconds contents ino c).0
        ≡ rows c
          ++ record {
            sid = last_insert_rowid (insert seconds contents ino c).0;
            seconds = seconds;
            contents = contents;
            ino = ino;
          }
            ∷ []
  pub increases :
      (seconds : ℤ) (contents : Bytes) (ino : ℕ) (c : Conn)
      → (insert seconds contents ino c).1 ≡ true
      → All
          (λ (r : SnapshotRow). r.sid < last_insert_rowid (insert seconds contents ino c).0)
          (rows c)
  pub refuses :
      (seconds : ℤ) (contents : Bytes) (ino : ℕ) (c : Conn)
      → (insert seconds contents ino c).1 ≡ false
      → rows (insert seconds contents ino c).0 ≡ rows c
  pub answers :
      (q : SnapshotQuery) (c : Conn) (found : List SnapshotRow)
      → query q c ≡ some found
      → Answers q (rows c) found

pub record SnapshotStore : Type 1 where
  pub db : SnapshotDb
  pub open db use {Conn, rows, insert, last_insert_rowid, query}
  pub cipher : Cipher
  pub meta_key : Bytes
  pub nonce : ℕ → Bytes
  pub sized : (n : ℕ) → length (nonce n) ≡ nonce_size
  pub serialize : SnapshotEntry → Option Bytes
  pub deserialize : Bytes → Option SnapshotEntry
  pub deserializes :
      (entry : SnapshotEntry) (bytes : Bytes)
      → serialize entry ≡ some bytes
      → deserialize bytes ≡ some entry

-- format!("snapshot:ino:{ino}")
abbrev pub snapshot_aad : ℕ → Bytes
snapshot_aad ino =
    b's'
    ∷ b'n'
    ∷ b'a'
    ∷ b'p'
    ∷ b's'
    ∷ b'h'
    ∷ b'o'
    ∷ b't'
    ∷ b':'
    ∷ b'i'
    ∷ b'n'
    ∷ b'o'
    ∷ b':'
    ∷ decimal ino

module _ (store : SnapshotStore) where
  unfoldable pub sealed_entry : ℕ → SnapshotEntry → Result StoreError Bytes
  sealed_entry n entry = elim (store.serialize entry) [
    | none ↦ err to_sql
    | some bytes ↦
        elim (encrypt store.cipher (store.nonce n) store.meta_key bytes
          (snapshot_aad entry.inode)) [ ok contents ↦ ok contents | err _ ↦ err to_sql ]
  ]

  abbrev pub drawn_again : Session store.Conn → Session store.Conn
  drawn_again s = record s { drawn = s.drawn + 1 }

  unfoldable pub inserted :
      ℤ → Bytes → ℕ → Session store.Conn → Session store.Conn × Result StoreError ℕ
  inserted seconds contents ino s =
      let done = store.insert seconds contents ino s.conn in
      (record s { conn = done.0 }, if done.1 then ok (store.last_insert_rowid done.0) else err sql)

  -- It answers the row's id.
  unfoldable pub append :
      SnapshotEntry → Session store.Conn → Session store.Conn × Result StoreError ℕ
  append entry s = elim (sealed_entry s.drawn entry) [
    | err failure ↦ (drawn_again s, err failure)
    | ok contents ↦ inserted (seconds_of entry) contents entry.inode (drawn_again s)
  ]

  unfoldable pub try_decrypt_entry : Bytes → ℕ → Result StoreError SnapshotEntry
  try_decrypt_entry contents ino =
      elim (decrypt store.cipher store.meta_key contents (snapshot_aad ino)) [
        | err _ ↦ err from_sql
        | ok bytes ↦ elim (store.deserialize bytes) [ none ↦ err from_sql | some entry ↦ ok entry ]
      ]

  abbrev pub rows_for : SnapshotQuery → Session store.Conn → Result StoreError (List SnapshotRow)
  rows_for q s = elim (store.query q s.conn) [ none ↦ err sql | some found ↦ ok found ]

  unfoldable pub first_entry : ℕ → List SnapshotRow → Result StoreError (Option SnapshotEntry)
  first_entry ino [] = ok none
  first_entry ino (r ∷ _) = do entry ← try_decrypt_entry r.contents ino; ok (some entry)

  unfoldable pub get_snapshot :
      ℕ → ℕ → Session store.Conn → Result StoreError (Option SnapshotEntry)
  get_snapshot row_id ino s = do found ← rows_for (by_sid row_id) s; first_entry ino found

  -- The loop of `list_for_inode`, which opens each row with the inode that was asked for.
  unfoldable pub entries_for : ℕ → List SnapshotRow → Result StoreError (List SnapshotEntry)
  entries_for ino [] = ok []
  entries_for ino (r ∷ found) = do
    entry ← try_decrypt_entry r.contents ino
    entries ← entries_for ino found
    ok (entry ∷ entries)

  unfoldable pub list_for_inode : ℕ → Session store.Conn → Result StoreError (List SnapshotEntry)
  list_for_inode ino s = do found ← rows_for (of_inode ino) s; entries_for ino found

  -- The loop of `list_recent`, which opens each row with the inode of the row.
  unfoldable pub own_entries : List SnapshotRow → Result StoreError (List SnapshotEntry)
  own_entries [] = ok []
  own_entries (r ∷ found) = do
    entry ← try_decrypt_entry r.contents r.ino
    entries ← own_entries found
    ok (entry ∷ entries)

  unfoldable pub list_recent : ℕ → Session store.Conn → Result StoreError (List SnapshotEntry)
  list_recent limit s = do found ← rows_for (recent limit) s; own_entries found
