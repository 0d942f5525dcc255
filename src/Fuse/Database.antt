-- ===== src/Fuse/Database.antt =====
-- The table of inodes that crates/tgcryptfs-store/src/migrations.rs makes, and the statements that
-- inode_store.rs and fs.rs run on it. SQLite itself is a parameter: what a connection is, which
-- statements it refuses (a lock, a full disk), and when. A statement that works has the effect
-- that its text says; one that fails leaves the tables as they were, or, as SQLite may do after a full
-- disk, an I/O error, a lack of memory, a lock or an interrupt, rolls the open transaction back.
-- A query changes nothing.
use tgcryptfs.Crypto.Aead.{Bytes}
use tgcryptfs.Fuse.BlockRows.{BlockRecord, BlockStatement, BlockQuery, select_blocks, block_effect}
use tgcryptfs.Common.Dict.{list_beq, nat_eq}
use tgcryptfs.Common.{
  ℕ, ◌+◌, max, ◌≡◌, ◌⊎◌, Bool, true, false, not, ◌&&◌, ◌||◌, Option, none, some, List, [], ◌∷◌,
  ◌++◌, map, ◌==◌, if◌then◌else◌, is_empty, filterb,
}

pub record Row : Type 0 where
  pub ino : ℕ
  pub parent : ℕ
  pub name_hash : Bytes
  pub contents : Bytes
  pub version : ℕ

-- The rows of both tables, and those at the BEGIN of the open transaction: `before` is `none` while
-- no transaction is open.
pub record Table : Type 0 where
  pub rows : List Row
  pub before : Option (List Row)
  pub blocks : List BlockRecord
  pub blocks_before : List BlockRecord

pub data Statement : Type 0 where
  insert_row : Row → Statement
  update_row : ℕ → ℕ → Bytes → Bytes → Statement
  delete_row : ℕ → Statement
  begin_immediate commit rollback : Statement
  on_blocks : BlockStatement → Statement

pub data Query : Type 0 where
  by_ino by_parent : ℕ → Query
  by_name : ℕ → Bytes → Query

unfoldable pub selects : Query → Row → Bool
selects (by_ino ino) r = r.ino == ino
selects (by_parent parent) r = r.parent == parent
selects (by_name parent name_hash) r = (r.parent == parent) && list_beq r.name_hash name_hash

-- The WHERE of a query.
abbrev pub select : Query → List Row → List Row
select q rows = filterb (selects q) rows

-- The primary key `ino`, and the unique index on the parent and the name's hash.
unfoldable pub conflicts : Row → Row → Bool
conflicts new r =
    (r.ino == new.ino) || (r.parent == new.parent) && list_beq r.name_hash new.name_hash

-- SET on one row.
abbrev pub set_row : ℕ → ℕ → Bytes → Bytes → Row → Row
set_row ino parent name_hash contents r =
    if r.ino == ino
    then record r {
      parent = parent;
      name_hash = name_hash;
      contents = contents;
      version = r.version + 1;
    }
    else r

-- Another row holds the parent and the name's hash that the row is to have.
abbrev pub name_taken : ℕ → ℕ → Bytes → List Row → Bool
name_taken ino parent name_hash rows =
    not (is_empty (select (by_ino ino) rows))
    && not (is_empty (filterb (λ r. not (r.ino == ino)) (select (by_name parent name_hash) rows)))

-- What a statement makes of the table; `none`: it must fail.
unfoldable pub effect : Statement → Table → Option Table
effect (insert_row r) t =
    if is_empty (filterb (conflicts r) t.rows)
    then some (record t { rows = t.rows ++ r ∷ [] })
    else none
effect (update_row ino parent name_hash contents) t =
    if name_taken ino parent name_hash t.rows
    then none
    else some (record t { rows = map (set_row ino parent name_hash contents) t.rows })
effect (delete_row ino) t = some (record t { rows = filterb (λ r. not (r.ino == ino)) t.rows })
effect begin_immediate t = elim t.before [
  | none ↦ some (record t { before = some t.rows; blocks_before = t.blocks })
  | some _ ↦ none
]
effect commit t = elim t.before [ none ↦ none | some _ ↦ some (record t { before = none }) ]
effect rollback t = elim t.before [
  | none ↦ none
  | some rows ↦ some (record t { rows = rows; before = none; blocks = t.blocks_before })
]
effect (on_blocks s) t = elim (block_effect s t.blocks) [
  | none ↦ none
  | some blocks ↦ some (record t { blocks = blocks })
]

-- `COALESCE(MAX(ino), 0)`
abbrev pub max_ino : List Row → ℕ
max_ino [] = 0
max_ino (r ∷ rows) = max r.ino (max_ino rows)

-- The same tables, or those that a rollback of the open transaction gives.
abbrev pub SameOrRolledBack : Table → Table → Type 0
SameOrRolledBack t t' = (t' ≡ t) ⊎ (effect rollback t ≡ some t')

pub record Sqlite : Type 1 where
  pub Conn : Type 0
  pub table : Conn → Table
  pub execute : Statement → Conn → Conn × Bool
  pub query : Query → Conn → Option (List Row)
  pub query_blocks : BlockQuery → Conn → Option (List BlockRecord)
  pub query_next : Conn → Option ℕ
  pub executes :
      (s : Statement) (c : Conn)
      → (execute s c).1 ≡ true
      → effect s (table c) ≡ some (table (execute s c).0)
  pub refuses :
      (s : Statement) (c : Conn)
      → (execute s c).1 ≡ false
      → SameOrRolledBack (table c) (table (execute s c).0)
  pub answers :
      (q : Query) (c : Conn) (rows : List Row)
      → query q c ≡ some rows
      → rows ≡ select q (table c).rows
  pub answers_next : (c : Conn) (n : ℕ) → query_next c ≡ some n → n ≡ max_ino (table c).rows + 1
  pub answers_blocks :
      (q : BlockQuery) (c : Conn) (blocks : List BlockRecord)
      → query_blocks q c ≡ some blocks
      → blocks ≡ select_blocks q (table c).blocks
