-- ===== src/Fuse/Requests/Rename/Open.antt =====
-- The transaction that a refused `rename` leaves open.
use tgcryptfs.Crypto.Aead.{Bytes}
use tgcryptfs.Fuse.Inode.{Inode}
use tgcryptfs.Fuse.Database.{Table, effect, begin_immediate}
use tgcryptfs.Fuse.Store.{Env, Session, StoreError, lookup_inode}
use tgcryptfs.Fuse.Store.Steps.{table_of, run_cases}
use tgcryptfs.Fuse.Requests.{enotempty, existing, begin_txn, check_new, insert_child, mkdir}
use tgcryptfs.Fuse.Requests.Transactions.{begin_effect}
use tgcryptfs.Fuse.Requests.Atomic.{LeftOpen}
use tgcryptfs.Fuse.Requests.Rename.{blocks, check_rename, rename}
use tgcryptfs.Common.{
  ℕ, ◌≡◌, refl, ◌≢◌, inl, inr, false, Option, none, some, arith, Bool-cases, Result, ok, err, is_ok,
  Result-cases,
}

-- Inside a transaction BEGIN fails.
no_nested_begin : (t t' : Table) → t.before ≢ none → effect begin_immediate t ≢ some t'
no_nested_begin t t' ne h = ne (begin_effect t t' h).0

module _ (env : Env) where
  begin_refused :
      (fs : Session env.Conn)
      → (table_of env fs).before ≢ none
      → (e : StoreError) × ((begin_txn env fs).1 ≡ err e)
  begin_refused fs ne = elim (run_cases env begin_immediate fs) [
    | inl (_, did) ↦
        absurd (no_nested_begin (table_of env fs) (table_of env (begin_txn env fs).0) ne did)
    | inr (failed, _) ↦ failed
  ]

  -- While a transaction is open, no `mkdir` succeeds.
  mkdir_refused :
      (uid gid now parent : ℕ) (name : Option Bytes) (mode : ℕ) (fs : Session env.Conn)
      → (table_of env fs).before ≢ none
      → is_ok (mkdir env uid gid now parent name mode fs).1 ≡ false
  unfolding mkdir insert_child
  mkdir_refused uid gid now parent none mode fs ne = refl
  mkdir_refused uid gid now parent (some s) mode fs ne =
      let (e, failed) = begin_refused fs ne in
      elim (Result-cases (check_new env parent s fs)) [
        | inr (e', h) ↦ rw (h, mkdir) refl
        | inl ((p, ino), h) ↦ rw (h, failed, mkdir, insert_child) refl
      ]

  existing_ne : (r : Result StoreError (Option Inode)) → existing r ≢ err enotempty
  existing_ne (ok (some i)) h = ground arith
  existing_ne (ok none) h = ground arith
  existing_ne (err e) h = ground arith

  check_rename_ne :
      (parent : ℕ) (name newname : Option Bytes) (fs : Session env.Conn)
      → check_rename env parent name newname fs ≢ err enotempty
  unfolding check_rename
  check_rename_ne parent none newname fs h = ground arith
  check_rename_ne parent (some s) none fs h = ground arith
  check_rename_ne parent (some s) (some n) fs h =
      elim (Result-cases (existing (lookup_inode env parent s fs))) [
        | inl (i, e) ↦ ground arith
        | inr (e, g) ↦ ground (arith, existing_ne (lookup_inode env parent s fs))
      ]

  -- A `rename` that is refused because the destination is a directory with children leaves the
  -- transaction open that it has begun, so that no `mkdir` on the connection succeeds after it.
  pub rename-LeftOpen :
      (now parent : ℕ) (name : Option Bytes) (newparent : ℕ) (newname : Option Bytes)
      (fs : Session env.Conn)
      → (rename env now parent name newparent newname fs).1 ≡ err enotempty
      → LeftOpen env fs (rename env now parent name newparent newname fs).0
        × ((uid gid later under : ℕ) (child : Option Bytes) (mode : ℕ)
            → is_ok
                (mkdir env uid gid later under child mode
                  (rename env now parent name newparent newname fs).0).1
              ≡ false)
  unfolding rename
  rename-LeftOpen now parent name newparent newname fs h =
      elim (Result-cases (check_rename env parent name newname fs)) [
        | inr (e, g) ↦ absurd (ground (arith, check_rename_ne parent name newname fs))
        | inl ((n, i), g) ↦ elim (run_cases env begin_immediate fs) [
          | inr ((e, failed), _) ↦ absurd (ground arith)
          | inl (worked, did) ↦
              let (_, _, saved) =
                begin_effect (table_of env fs) (table_of env (begin_txn env fs).0) did in
              let begun = (begin_txn env fs).0 in
              elim (Bool-cases (blocks (lookup_inode env newparent n begun))) [
                | inr b ↦ absurd (ground arith)
                | inl b ↦
                    let stays : (rename env now parent name newparent newname fs).0 ≡ begun =
                      rw (g, worked, b, rename) refl in
                    rw stays (
                      saved,
                      λ uid gid later under child mode.
                          mkdir_refused uid gid later under child mode begun (ground arith),
                    )
              ]
        ]
      ]
