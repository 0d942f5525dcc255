-- ===== src/Fuse/Store/Steps.antt =====
-- What each change of the store does to the table, whether it works or fails.
use tgcryptfs.Crypto.Aead.{Bytes}
use tgcryptfs.Fuse.Inode.{Inode}
use tgcryptfs.Fuse.Database.{
  Row, Table, Statement, insert_row, update_row, effect, set_row, conflicts, SameOrRolledBack,
}
use tgcryptfs.Fuse.Store.{
  Env, Session, StoreError, sql, sealed_inode, run, insert_inode, update_inode,
}
use tgcryptfs.Common.{
  ℕ, ◌+◌, ◌≡◌, refl, ◌⊎◌, inl, inr, true, some, [], ◌∷◌, ◌++◌, map, arith, Bool-cases, Result, ok,
  err, is_empty, filterb, Result-cases,
}

module _ (env : Env) where
  abbrev pub table_of : Session env.Conn → Table
  table_of fs = env.db.table fs.conn

  -- A change that fails leaves the tables as they were, or rolls the open transaction back.
  abbrev pub Fails : Session env.Conn → Session env.Conn × Result StoreError (Unit {0}) → Type 0
  Fails fs out =
      ((e : StoreError) × (out.1 ≡ err e)) × SameOrRolledBack (table_of fs) (table_of out.0)

  abbrev pub Does :
      Statement → Session env.Conn → Session env.Conn × Result StoreError (Unit {0}) → Type 0
  Does s fs out = (out.1 ≡ ok tt) × (effect s (table_of fs) ≡ some (table_of out.0))

  pub run_cases :
      (s : Statement) (fs : Session env.Conn) → Does s fs (run env s fs) ⊎ Fails fs (run env s fs)
  unfolding run
  run_cases s fs = elim (Bool-cases (env.execute s fs.conn).1) [
    | inl e ↦ inl (rw e refl, env.db.executes s fs.conn e)
    | inr e ↦ inr ((sql, rw e refl), env.db.refuses s fs.conn e)
  ]

  -- The row of an inode.
  abbrev pub row_of : Inode → Bytes → Row
  row_of i contents = record {
    ino = i.ino;
    parent = i.parent;
    name_hash = env.hash i.name;
    contents = contents;
    version = 0;
  }

  insert_inode_ok :
      (i : Inode) (fs : Session env.Conn) (contents : Bytes)
      → sealed_inode env fs.drawn i ≡ ok contents
      → insert_inode env i fs
        ≡ run env (insert_row (row_of i contents)) (record fs { drawn = fs.drawn + 1 })
  unfolding insert_inode
  insert_inode_ok i fs contents h = rw (h, insert_inode) refl

  insert_inode_err :
      (i : Inode) (fs : Session env.Conn) (e : StoreError)
      → sealed_inode env fs.drawn i ≡ err e
      → insert_inode env i fs ≡ (record fs { drawn = fs.drawn + 1 }, err e)
  unfolding insert_inode
  insert_inode_err i fs e h = rw (h, insert_inode) refl

  pub insert_inode_cases :
      (i : Inode) (fs : Session env.Conn)
      → ((contents : Bytes) × (sealed_inode env fs.drawn i ≡ ok contents)
          × Does (insert_row (row_of i contents)) fs (insert_inode env i fs))
        ⊎ Fails fs (insert_inode env i fs)
  insert_inode_cases i fs = elim (Result-cases (sealed_inode env fs.drawn i)) [
    | inl (contents, e) ↦
        rw (insert_inode_ok i fs contents e)
          (elim (run_cases (insert_row (row_of i contents)) (record fs { drawn = fs.drawn + 1 })) [
            | inl d ↦ inl (contents, e, d)
            | inr f ↦ inr f
          ])
    | inr (e, h) ↦ rw (insert_inode_err i fs e h) (inr ((e, refl), inl refl))
  ]

  update_inode_ok :
      (i : Inode) (fs : Session env.Conn) (contents : Bytes)
      → sealed_inode env fs.drawn i ≡ ok contents
      → update_inode env i fs
        ≡ run env
            (update_row i.ino i.parent (env.hash i.name) contents)
            (record fs { drawn = fs.drawn + 1 })
  unfolding update_inode
  update_inode_ok i fs contents h = rw (h, update_inode) refl

  update_inode_err :
      (i : Inode) (fs : Session env.Conn) (e : StoreError)
      → sealed_inode env fs.drawn i ≡ err e
      → update_inode env i fs ≡ (record fs { drawn = fs.drawn + 1 }, err e)
  unfolding update_inode
  update_inode_err i fs e h = rw (h, update_inode) refl

  pub update_inode_cases :
      (i : Inode) (fs : Session env.Conn)
      → ((contents : Bytes) × (sealed_inode env fs.drawn i ≡ ok contents)
          × Does (update_row i.ino i.parent (env.hash i.name) contents) fs (update_inode env i fs))
        ⊎ Fails fs (update_inode env i fs)
  update_inode_cases i fs = elim (Result-cases (sealed_inode env fs.drawn i)) [
    | inl (contents, e) ↦
        rw (update_inode_ok i fs contents e)
          (elim (run_cases (update_row i.ino i.parent (env.hash i.name) contents)
            (record fs { drawn = fs.drawn + 1 })) [ inl d ↦ inl (contents, e, d) | inr f ↦ inr f ])
    | inr (e, h) ↦ rw (update_inode_err i fs e h) (inr ((e, refl), inl refl))
  ]

-- What an insert and an update that work have done.
pub insert_row_effect :
    (r : Row) (t t' : Table)
    → effect (insert_row r) t ≡ some t'
    → (is_empty (filterb (conflicts r) t.rows) ≡ true)
      × (t'.rows ≡ t.rows ++ r ∷ [])
      × (t'.before ≡ t.before)
unfolding effect
insert_row_effect r t t' h = ground arith

pub update_row_effect :
    (ino parent : ℕ) (name_hash contents : Bytes) (t t' : Table)
    → effect (update_row ino parent name_hash contents) t ≡ some t'
    → (t'.rows ≡ map (set_row ino parent name_hash contents) t.rows) × (t'.before ≡ t.before)
unfolding effect
update_row_effect ino parent name_hash contents t t' h = ground arith
