-- ===== src/Fuse/Store.antt =====
-- crates/tgcryptfs-store/src/inode_store.rs: inodes as encrypted rows. The table's names
-- (`OpaqueSchema`) are left out. postcard and BLAKE3 are parameters; a nonce comes from `OsRng`,
-- a sequence of which `drawn` counts the draws.
pub mod Steps
pub mod RoundTrip
pub mod Update
use tgcryptfs.Crypto.Aead.{Bytes, Cipher, nonce_size, encrypt, decrypt}
use tgcryptfs.Fuse.Inode.{Inode}
use tgcryptfs.Fuse.Database.{
  Row, Statement, insert_row, update_row, delete_row, by_ino, by_parent, by_name, Sqlite,
}
use tgcryptfs.Common.{
  ℕ, zero, suc, ◌+◌, ◌/◌, ◌%◌, ◌≡◌, Option, none, some, List, [], ◌∷◌, ltb, if◌then◌else◌, Result,
  ok, err, ◌>>=◌, length,
}

pub record Env : Type 1 where
  pub db : Sqlite
  pub open db use {Conn, table, execute, query, query_next, query_blocks}
  pub cipher : Cipher
  pub meta_key : Bytes
  pub nonce : ℕ → Bytes
  pub sized : (n : ℕ) → length (nonce n) ≡ nonce_size
  pub hash : Bytes → Bytes
  pub serialize : Inode → Option Bytes
  pub deserialize : Bytes → Option Inode
  pub deserializes :
      (i : Inode) (bytes : Bytes) → serialize i ≡ some bytes → deserialize bytes ≡ some i

-- The states of `rusqlite::Error` that the store makes.
pub data StoreError : Type 0 where
  sql to_sql from_sql : StoreError

-- The part of the file system's state that the store uses.
pub record Session (Conn : Type 0) : Type 0 where
  pub conn : Conn
  pub drawn : ℕ

-- `format!` of a number
unfoldable pub digits : ℕ → ℕ → Bytes → Bytes
digits zero n acc = acc
digits (suc fuel) n acc =
    if ltb n 10 then (48 + n) ∷ acc else digits fuel (n / 10) ((48 + n % 10) ∷ acc)

-- A u64 has at most 20 digits.
unfoldable pub decimal : ℕ → Bytes
unfolding digits
decimal n = digits 20 n []

-- b"inode:" and the number.
unfoldable pub inode_aad : ℕ → Bytes
unfolding decimal
inode_aad ino = b'i' ∷ b'n' ∷ b'o' ∷ b'd' ∷ b'e' ∷ b':' ∷ decimal ino

module _ (env : Env) where
  -- The serialized and encrypted inode.
  unfoldable pub sealed_inode : ℕ → Inode → Result StoreError Bytes
  sealed_inode n i = elim (env.serialize i) [
    | none ↦ err to_sql
    | some bytes ↦ elim (encrypt env.cipher (env.nonce n) env.meta_key bytes (inode_aad i.ino)) [
      | ok contents ↦ ok contents
      | err _ ↦ err to_sql
    ]
  ]

  -- The inode of a row, which the number in the associated data binds to the row.
  unfoldable pub opened_inode : ℕ → Bytes → Result StoreError Inode
  opened_inode ino contents = elim (decrypt env.cipher env.meta_key contents (inode_aad ino)) [
    | err _ ↦ err from_sql
    | ok bytes ↦ elim (env.deserialize bytes) [ none ↦ err from_sql | some i ↦ ok i ]
  ]

  unfoldable pub run :
      Statement → Session env.Conn → Session env.Conn × Result StoreError (Unit {0})
  run s fs =
      let after = env.execute s fs.conn in
      (record fs { conn = after.0 }, if after.1 then ok tt else err sql)

  abbrev pub draw : Session env.Conn → Session env.Conn
  draw fs = record fs { drawn = fs.drawn + 1 }

  unfoldable pub insert_inode :
      Inode → Session env.Conn → Session env.Conn × Result StoreError (Unit {0})
  insert_inode i fs = elim (sealed_inode fs.drawn i) [
    | err e ↦ (draw fs, err e)
    | ok contents ↦
        run
          (insert_row (record {
            ino = i.ino;
            parent = i.parent;
            name_hash = env.hash i.name;
            contents = contents;
            version = 0;
          }))
          (draw fs)
  ]

  unfoldable pub update_inode :
      Inode → Session env.Conn → Session env.Conn × Result StoreError (Unit {0})
  update_inode i fs = elim (sealed_inode fs.drawn i) [
    | err e ↦ (draw fs, err e)
    | ok contents ↦ run (update_row i.ino i.parent (env.hash i.name) contents) (draw fs)
  ]

  unfoldable pub delete_inode :
      ℕ → Session env.Conn → Session env.Conn × Result StoreError (Unit {0})
  delete_inode ino fs = run (delete_row ino) fs

  -- `rows.next()?` and the inode of the row.
  unfoldable pub first_inode : List Row → Result StoreError (Option Inode)
  first_inode [] = ok none
  first_inode (r ∷ _) = do i ← opened_inode r.ino r.contents; ok (some i)

  -- The loop of `list_children`.
  unfoldable pub all_inodes : List Row → Result StoreError (List Inode)
  all_inodes [] = ok []
  all_inodes (r ∷ rows) = do
    i ← opened_inode r.ino r.contents
    inodes ← all_inodes rows
    ok (i ∷ inodes)

  abbrev pub answer : {A : Type 0} → Option A → Result StoreError A
  answer none = err sql
  answer (some a) = ok a

  unfoldable pub get_inode : ℕ → Session env.Conn → Result StoreError (Option Inode)
  get_inode ino fs = do rows ← answer (env.query (by_ino ino) fs.conn); first_inode rows

  unfoldable pub lookup_inode : ℕ → Bytes → Session env.Conn → Result StoreError (Option Inode)
  lookup_inode parent name fs = do
    rows ← answer (env.query (by_name parent (env.hash name)) fs.conn)
    first_inode rows

  unfoldable pub list_children : ℕ → Session env.Conn → Result StoreError (List Inode)
  list_children parent fs = do rows ← answer (env.query (by_parent parent) fs.conn); all_inodes rows

  unfoldable pub next_ino : Session env.Conn → Result StoreError ℕ
  next_ino fs = answer (env.query_next fs.conn)
