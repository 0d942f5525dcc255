-- ===== src/Fuse/Requests/Atomic.antt =====
-- `mkdir` and `create` change the inode and its parent together, or neither.
use tgcryptfs.Crypto.Aead.{Bytes}
use tgcryptfs.Fuse.Inode.{Inode}
use tgcryptfs.Fuse.Database.{
  effect, insert_row, update_row, begin_immediate, commit, rollback, conflicts, set_row,
}
use tgcryptfs.Fuse.Store.{Env, Session, StoreError, run, sealed_inode, insert_inode, update_inode}
use tgcryptfs.Fuse.Store.Steps.{
  table_of, row_of, run_cases, insert_inode_cases, update_inode_cases, insert_row_effect,
  update_row_effect,
}
use tgcryptfs.Fuse.Requests.{Errno, eio, or_eio, insert_child, begin_txn, commit_txn, rollback_txn}
use tgcryptfs.Fuse.Requests.Transactions.{begin_effect, commit_effect, Has, Has-SameOrRolledBack}
use tgcryptfs.Common.{
  ◌≡◌, refl, sym, ap, ◌∙◌, ◌⊎◌, inl, inr, true, none, some, [], ◌∷◌, ◌++◌, map, Result, ok, err,
  is_empty, filterb,
}

module _ (env : Env) where
  -- The table has the same rows as before, and no transaction is open.
  abbrev pub Unchanged : Session env.Conn → Session env.Conn → Type 0
  Unchanged fs fs' =
      ((table_of env fs').rows ≡ (table_of env fs).rows) × ((table_of env fs').before ≡ none)

  -- A transaction is still open; to roll it back gives the rows from before.
  abbrev pub LeftOpen : Session env.Conn → Session env.Conn → Type 0
  LeftOpen fs fs' = (table_of env fs').before ≡ some (table_of env fs).rows

  -- A row for the child has come, which had no conflict, and the parent's row has been set; the
  -- encrypted inodes stand in both.
  pub record Adds (child parent : Inode) (fs fs' : Session env.Conn) : Type 0 where
    pub child_data : Bytes
    pub parent_data : Bytes
    pub child_sealed : sealed_inode env fs.drawn child ≡ ok child_data
    pub free :
        is_empty (filterb (conflicts (row_of env child child_data)) (table_of env fs).rows) ≡ true
    pub rows :
        (table_of env fs').rows
        ≡ map
            (set_row parent.ino parent.parent (env.hash parent.name) parent_data)
            ((table_of env fs).rows ++ row_of env child child_data ∷ [])
    pub closed : (table_of env fs').before ≡ none

  -- An open transaction, or none and the rows from before.
  Has-either :
      (fs fs' : Session env.Conn)
      → Has (table_of env fs).rows (table_of env fs')
      → Unchanged fs fs' ⊎ LeftOpen fs fs'
  Has-either fs fs' (inl e) = inr e
  Has-either fs fs' (inr closed) = inl closed

  rollback-Unchanged :
      (fs fs' : Session env.Conn)
      → Has (table_of env fs).rows (table_of env fs')
      → Unchanged fs (rollback_txn env fs') ⊎ LeftOpen fs (rollback_txn env fs')
  rollback-Unchanged fs fs' has = elim (run_cases env rollback fs') [
    | inr (_, rest) ↦ Has-either fs (rollback_txn env fs') (
        Has-SameOrRolledBack (table_of env fs).rows (table_of env fs')
          (table_of env (rollback_txn env fs')) has rest)
    | inl (_, did) ↦ Has-either fs (rollback_txn env fs') (
        Has-SameOrRolledBack (table_of env fs).rows (table_of env fs')
          (table_of env (rollback_txn env fs')) has (inr did))
  ]

  module _ (child parent : Inode) (fs : Session env.Conn) where
    abbrev begun : Session env.Conn
    begun = (begin_txn env fs).0

    abbrev inserted : Session env.Conn
    inserted = (insert_inode env child begun).0

    abbrev updated : Session env.Conn
    updated = (update_inode env parent inserted).0

    abbrev committed : Session env.Conn
    committed = (commit_txn env updated).0

    -- The four ways through the transaction.
    insert_child_begin :
        (e : StoreError)
        → (begin_txn env fs).1 ≡ err e
        → insert_child env child parent fs ≡ (begun, err eio)
    unfolding insert_child
    insert_child_begin e h = rw (h, insert_child) refl

    insert_child_insert :
        (e : StoreError)
        → (begin_txn env fs).1 ≡ ok tt
        → (insert_inode env child begun).1 ≡ err e
        → insert_child env child parent fs ≡ (rollback_txn env inserted, err eio)
    unfolding insert_child
    insert_child_insert e h g = rw (h, g, insert_child) refl

    insert_child_update :
        (e : StoreError)
        → (begin_txn env fs).1 ≡ ok tt
        → (insert_inode env child begun).1 ≡ ok tt
        → (update_inode env parent inserted).1 ≡ err e
        → insert_child env child parent fs ≡ (rollback_txn env updated, err eio)
    unfolding insert_child
    insert_child_update e h g f = rw (h, g, f, insert_child) refl

    insert_child_commit :
        (begin_txn env fs).1 ≡ ok tt
        → (insert_inode env child begun).1 ≡ ok tt
        → (update_inode env parent inserted).1 ≡ ok tt
        → insert_child env child parent fs ≡ (committed, or_eio (commit_txn env updated).1)
    unfolding insert_child
    insert_child_commit h g f = rw (h, g, f, insert_child) refl

    abbrev pub Atomically : Session env.Conn × Result Errno (Unit {0}) → Type 0
    Atomically out =
        ((out.1 ≡ ok tt) × Adds child parent fs out.0)
        ⊎ ((out.1 ≡ err eio) × (Unchanged fs out.0 ⊎ LeftOpen fs out.0))

    drawn_lem : begun.drawn ≡ fs.drawn
    unfolding run
    drawn_lem = refl

    committed-Atomically :
        (t0 : effect begin_immediate (table_of env fs) ≡ some (table_of env begun))
        (child_data parent_data : Bytes)
        → sealed_inode env fs.drawn child ≡ ok child_data
        → effect (insert_row (row_of env child child_data)) (table_of env begun)
          ≡ some (table_of env inserted)
        → effect
            (update_row parent.ino parent.parent (env.hash parent.name) parent_data)
            (table_of env inserted)
          ≡ some (table_of env updated)
        → Atomically (committed, or_eio (commit_txn env updated).1)
    committed-Atomically t0 child_data parent_data sealed t1 t2 =
        let (_, same, saved) = begin_effect (table_of env fs) (table_of env begun) t0 in
        let (free, added, kept) =
          insert_row_effect (row_of env child child_data) (table_of env begun)
            (table_of env inserted) t1 in
        let (set, still) =
          update_row_effect parent.ino parent.parent (env.hash parent.name) parent_data
            (table_of env inserted) (table_of env updated) t2 in
        elim (run_cases env commit updated) [
          | inl (worked, t3) ↦
              let (final, closed) =
                commit_effect (table_of env updated) (table_of env committed) t3 in
              inl (
                rw worked refl,
                record {
                  child_data = child_data;
                  parent_data = parent_data;
                  child_sealed = sealed;
                  free = rw (sym same) free;
                  rows =
                      final
                      ∙ set
                      ∙ ap
                          (map
                            (set_row parent.ino parent.parent (env.hash parent.name) parent_data))
                          (added ∙ ap (λ rs. rs ++ row_of env child child_data ∷ []) same);
                  closed = closed;
                },
              )
          | inr ((e, failed), t3) ↦ inr (
            rw failed refl,
            Has-either fs committed (
                Has-SameOrRolledBack (table_of env fs).rows (table_of env updated)
                  (table_of env committed) (inl (still ∙ kept ∙ saved)) t3),
          )
        ]

    -- However the database behaves: if no transaction is open, the transaction of `mkdir` and
    -- `create` either reports success, and then it has added the child's row, which conflicted
    -- with none, and set the parent's, and nothing else; or it replies EIO, and then the rows are
    -- those from before, or a transaction is open that gives them back when it is rolled back.
    pub insert_child-IsAtomic :
        (table_of env fs).before ≡ none → Atomically (insert_child env child parent fs)
    insert_child-IsAtomic closed = elim (run_cases env begin_immediate fs) [
      | inr ((e, failed), same) ↦ rw (insert_child_begin e failed) (
          inr (
            refl,
            Has-either fs begun (
                Has-SameOrRolledBack (table_of env fs).rows (table_of env fs) (table_of env begun)
                  (inr (refl, closed)) same),
          ))
      | inl (worked, t0) ↦
          let (_, same, saved) = begin_effect (table_of env fs) (table_of env begun) t0 in
          elim (insert_inode_cases env child begun) [
            | inr ((e, failed), kept) ↦ rw (insert_child_insert e worked failed) (
                inr (
                  refl,
                  rollback-Unchanged fs inserted (
                      Has-SameOrRolledBack (table_of env fs).rows (table_of env begun)
                        (table_of env inserted) (inl saved) kept),
                ))
            | inl (child_data, sealed, (worked1, t1)) ↦
                let (_, _, kept) =
                  insert_row_effect (row_of env child child_data) (table_of env begun)
                    (table_of env inserted) t1 in
                elim (update_inode_cases env parent inserted) [
                  | inr ((e, failed), kept2) ↦ rw (insert_child_update e worked worked1 failed) (
                      inr (
                        refl,
                        rollback-Unchanged fs updated (
                            Has-SameOrRolledBack (table_of env fs).rows (table_of env inserted)
                              (table_of env updated) (inl (kept ∙ saved)) kept2),
                      ))
                  | inl (parent_data, _, (worked2, t2)) ↦
                      rw (insert_child_commit worked worked1 worked2) (
                        committed-Atomically t0 child_data parent_data (rw (sym drawn_lem) sealed)
                          t1 t2)
                ]
          ]
    ]
