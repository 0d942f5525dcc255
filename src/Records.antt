-- ===== src/Records.antt =====
-- What policy_store.rs, user_store.rs, volume_store.rs and deadman_store.rs of
-- crates/tgcryptfs-store/src share: a table of a key, an encrypted record and plain columns, and the
-- calls that serialize, seal, run one statement and open what comes back. The names of tables and
-- columns are left out, and postcard, the cipher and SQLite are parameters; `drawn` counts the nonces.
pub mod Opening
pub mod Orders
pub mod Refinement
pub mod Columns
pub mod Kept
pub mod Policies
pub mod Users
pub mod Volumes
pub mod Switches
pub mod Snapshots
use mathlib.Core.List.{Permᴰ}
use tgcryptfs.Crypto.Aead.{Bytes, Cipher, nonce_size, encrypt, decrypt}
use tgcryptfs.Common.Dict.{Eq}
use tgcryptfs.Fuse.Store.{Session, StoreError, sql, to_sql, from_sql}
use tgcryptfs.Common.{
  ℕ, ◌+◌, ◌≡◌, Bool, true, false, not, Option, none, some, List, [], ◌∷◌, ◌++◌, map, if◌then◌else◌,
  Result, ok, err, ◌>>=◌, ◌>>◌, length, filterb,
}

-- A row whose second column is encrypted, or a record in the clear.
pub record TableRow (K C X : Type 0) : Type 0 where
  pub key : K
  pub contents : X
  pub columns : C

-- INSERT OR REPLACE, UPDATE .. SET .. WHERE the key is this one, DELETE .. WHERE the key is this one
pub data RowStatement (K C X : Type 0) : Type 0 where
  put_row : K → X → C → RowStatement K C X
  set_columns : K → (C → C) → RowStatement K C X
  delete_rows : K → RowStatement K C X

-- SELECT .. WHERE the key is this one, SELECT .. WHERE a test of the columns
pub data RowQuery (K C : Type 0) : Type 0 where
  rows_of : K → RowQuery K C
  rows_where : (C → Bool) → RowQuery K C

module _ {K C X : Type 0} ⦃e : Eq K⦄ where
  abbrev pub with_columns : K → (C → C) → TableRow K C X → TableRow K C X
  with_columns k f r = if e.beq r.key k then record r { columns = f r.columns } else r

  unfoldable pub row_effect : RowStatement K C X → List (TableRow K C X) → List (TableRow K C X)
  row_effect (put_row k x c) rows =
      filterb (λ (r : TableRow K C X). not (e.beq r.key k)) rows
      ++ record { key = k; contents = x; columns = c } ∷ []
  row_effect (set_columns k f) rows = map (with_columns k f) rows
  row_effect (delete_rows k) rows = filterb (λ (r : TableRow K C X). not (e.beq r.key k)) rows

  unfoldable pub row_answer : RowQuery K C → List (TableRow K C X) → List (TableRow K C X)
  row_answer (rows_of k) rows = filterb (λ (r : TableRow K C X). e.beq r.key k) rows
  row_answer (rows_where test) rows = filterb (λ (r : TableRow K C X). test r.columns) rows

-- The rows that a query may give: a key has one row at most, and the rows that pass a test of the
-- columns come in any order.
abbrev pub RowAnswers :
    {K C X : Type 0}
    → ⦃e : Eq K⦄ → RowQuery K C
    → List (TableRow K C X)
    → List (TableRow K C X)
    → Type 0
RowAnswers (rows_of k) rows found = found ≡ row_answer (rows_of k) rows
RowAnswers (rows_where test) rows found = Permᴰ (row_answer (rows_where test) rows) found

-- A statement that works has its effect, and one that fails changes no row. The order of `rows` is the
-- model's own, and no answer tells it.
pub record TableDb (K C : Type 0) ⦃e : Eq K⦄ : Type 1 where
  pub Conn : Type 0
  pub rows : Conn → List (TableRow K C Bytes)
  pub execute : RowStatement K C Bytes → Conn → Conn × Bool
  pub query : RowQuery K C → Conn → Option (List (TableRow K C Bytes))
  pub executes :
      (s : RowStatement K C Bytes) (c : Conn)
      → (execute s c).1 ≡ true
      → rows (execute s c).0 ≡ row_effect s (rows c)
  pub refuses :
      (s : RowStatement K C Bytes) (c : Conn)
      → (execute s c).1 ≡ false
      → rows (execute s c).0 ≡ rows c
  pub answers :
      (q : RowQuery K C) (c : Conn) (found : List (TableRow K C Bytes))
      → query q c ≡ some found
      → RowAnswers q (rows c) found

pub record Store (K C A : Type 0) ⦃e : Eq K⦄ : Type 1 where
  pub db : TableDb K C
  pub open db use {Conn, rows, execute, query}
  pub cipher : Cipher
  pub meta_key : Bytes
  pub nonce : ℕ → Bytes
  pub sized : (n : ℕ) → length (nonce n) ≡ nonce_size
  pub serialize : A → Option Bytes
  pub deserialize : Bytes → Option A
  pub deserializes : (a : A) (bytes : Bytes) → serialize a ≡ some bytes → deserialize bytes ≡ some a

module _ {K C A : Type 0} ⦃e : Eq K⦄ (store : Store K C A) (aad : K → Bytes) where
  unfoldable pub seal_record : ℕ → K → A → Result StoreError Bytes
  seal_record n key a = elim (store.serialize a) [
    | none ↦ err to_sql
    | some bytes ↦ elim (encrypt store.cipher (store.nonce n) store.meta_key bytes (aad key)) [
      | ok contents ↦ ok contents
      | err _ ↦ err to_sql
    ]
  ]

  unfoldable pub open_record : K → Bytes → Result StoreError A
  open_record key contents = elim (decrypt store.cipher store.meta_key contents (aad key)) [
    | err _ ↦ err from_sql
    | ok bytes ↦ elim (store.deserialize bytes) [ none ↦ err from_sql | some a ↦ ok a ]
  ]

  abbrev pub Changed : Type 0
  Changed = Session store.Conn × Result StoreError (Unit {0})

  unfoldable pub run_statement : RowStatement K C Bytes → Session store.Conn → Changed
  run_statement statement s =
      let after = store.execute statement s.conn in
      (record s { conn = after.0 }, if after.1 then ok tt else err sql)

  abbrev pub drawn_once : Session store.Conn → Session store.Conn
  drawn_once s = record s { drawn = s.drawn + 1 }

  unfoldable pub save : K → C → A → Session store.Conn → Changed
  save key columns a s = elim (seal_record s.drawn key a) [
    | err failure ↦ (drawn_once s, err failure)
    | ok contents ↦ run_statement (put_row key contents columns) (drawn_once s)
  ]

  abbrev pub asked :
      RowQuery K C → Session store.Conn → Result StoreError (List (TableRow K C Bytes))
  asked q s = elim (store.query q s.conn) [ none ↦ err sql | some found ↦ ok found ]

  -- `rows.next()?`, opened with the key that was asked for.
  unfoldable pub first_record : K → List (TableRow K C Bytes) → Result StoreError (Option A)
  first_record key [] = ok none
  first_record key (r ∷ _) = do a ← open_record key r.contents; ok (some a)

  unfoldable pub fetch : K → Session store.Conn → Result StoreError (Option A)
  fetch key s = do found ← asked (rows_of key) s; first_record key found

  -- The loop over the rows, each opened with the key of its row.
  unfoldable pub all_records : List (TableRow K C Bytes) → Result StoreError (List A)
  all_records [] = ok []
  all_records (r ∷ found) = do
    a ← open_record r.key r.contents
    others ← all_records found
    ok (a ∷ others)

  unfoldable pub fetch_where : (C → Bool) → Session store.Conn → Result StoreError (List A)
  fetch_where test s = do found ← asked (rows_where test) s; all_records found
