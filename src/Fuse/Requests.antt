-- ===== src/Fuse/Requests.antt =====
-- crates/tgcryptfs-fuse/src/fs.rs: the requests on names and directories. A name is `none` if it
-- is not UTF-8; the caller's ids and the clock's reading are arguments.
pub mod Transactions
pub mod Atomic
pub mod Create
pub mod Rename
use tgcryptfs.Crypto.Aead.{Bytes}
use tgcryptfs.Fuse.Inode.{
  Inode, FileType, directory, FileAttr, root, new_file, new_dir, is_dir, inode_to_attr,
}
use tgcryptfs.Fuse.Database.{begin_immediate, commit, rollback}
use tgcryptfs.Fuse.Store.{
  Env, Session, StoreError, run, insert_inode, update_inode, delete_inode, get_inode, lookup_inode,
  list_children, next_ino,
}
use tgcryptfs.Common.{
  ℕ, ◌+◌, ◌-◌, ◌%◌, max, Bool, true, false, not, Option, none, some, List, [], ◌∷◌, ◌++◌, map, ◌==◌,
  if◌then◌else◌, u32_mod, Result, ok, err, ◌>>=◌, ◌>>◌, guard, drop, is_empty, filterb,
}

pub data Errno : Type 0 where
  einval enoent eio enotdir eexist eisdir enotempty ebadf : Errno

-- `retain(|&c| c != ino)`
abbrev pub without : ℕ → List ℕ → List ℕ
without ino children = filterb (λ c. not (c == ino)) children

-- The reply to a name that is not UTF-8.
abbrev pub to_str : Option Bytes → Result Errno Bytes
to_str none = err einval
to_str (some s) = ok s

-- A store's answer, where its error is EIO and its `none` ENOENT.
abbrev pub existing : Result StoreError (Option Inode) → Result Errno Inode
existing (ok (some i)) = ok i
existing (ok none) = err enoent
existing (err _) = err eio

abbrev pub or_eio : {A : Type 0} → Result StoreError A → Result Errno A
or_eio (ok a) = ok a
or_eio (err _) = err eio

-- `if let Ok(Some(_))`
abbrev pub is_found : Result StoreError (Option Inode) → Bool
is_found (ok (some _)) = true
is_found (ok none) = false
is_found (err _) = false

abbrev pub reply_attr : Inode → Result Errno (Unit {0}) → Result Errno FileAttr
reply_attr i (ok _) = ok (inode_to_attr i)
reply_attr i (err e) = err e

-- What `mkdir` makes: the directory, and its parent with one child and one link more.
abbrev pub mkdir_child : ℕ → ℕ → ℕ → ℕ → ℕ → Bytes → ℕ → Inode
mkdir_child uid gid now mode parent name ino = new_dir now parent name mode uid gid ino

abbrev pub mkdir_parent : Inode → ℕ → Inode
mkdir_parent p ino = record p { children = p.children ++ ino ∷ []; nlink = (p.nlink + 1) % u32_mod }

abbrev pub create_parent : Inode → ℕ → Inode
create_parent p ino = record p { children = p.children ++ ino ∷ [] }

module _ (env : Env) where
  abbrev pub begin_txn : Session env.Conn → Session env.Conn × Result StoreError (Unit {0})
  begin_txn fs = run env begin_immediate fs

  abbrev pub commit_txn : Session env.Conn → Session env.Conn × Result StoreError (Unit {0})
  commit_txn fs = run env commit fs

  abbrev pub rollback_txn : Session env.Conn → Session env.Conn
  rollback_txn fs = (run env rollback fs).0

  unfoldable pub init : ℕ → ℕ → ℕ → Session env.Conn → Session env.Conn × Result Errno (Unit {0})
  init uid gid now fs = elim (get_inode env 1 fs) [
    | err _ ↦ (fs, err eio)
    | ok (some _) ↦ (fs, ok tt)
    | ok none ↦
        let after = insert_inode env (record (root now) { uid = uid; gid = gid }) fs in
        (after.0, or_eio after.1)
  ]

  unfoldable pub lookup_request : ℕ → Option Bytes → Session env.Conn → Result Errno FileAttr
  lookup_request parent name fs = do
    s ← to_str name
    i ← existing (lookup_inode env parent s fs)
    ok (inode_to_attr i)

  unfoldable pub getattr : ℕ → Session env.Conn → Result Errno FileAttr
  getattr ino fs = do i ← existing (get_inode env ino fs); ok (inode_to_attr i)

  unfoldable pub readlink : ℕ → Session env.Conn → Result Errno Bytes
  readlink ino fs = do
    i ← existing (get_inode env ino fs)
    elim i.symlink_target [ none ↦ err einval | some target ↦ ok target ]

  -- The checks of `mkdir` and `create`: the parent, and the number for the new inode.
  unfoldable pub check_new : ℕ → Bytes → Session env.Conn → Result Errno (Inode × ℕ)
  check_new parent name fs = do
    p ← existing (get_inode env parent fs)
    guard (is_dir p) enotdir
    guard (not (is_found (lookup_inode env parent name fs))) eexist
    ino ← or_eio (next_ino env fs)
    ok (p, ino)

  -- The transaction of `mkdir` and `create`: the new inode, then its parent.
  unfoldable pub insert_child :
      Inode → Inode → Session env.Conn → Session env.Conn × Result Errno (Unit {0})
  insert_child child parent_inode fs =
      let begun = begin_txn fs in
      let inserted = insert_inode env child begun.0 in
      let updated = update_inode env parent_inode inserted.0 in
      let committed = commit_txn updated.0 in
      elim begun.1 [
        | err _ ↦ (begun.0, err eio)
        | ok _ ↦ elim inserted.1 [
          | err _ ↦ (rollback_txn inserted.0, err eio)
          | ok _ ↦ elim updated.1 [
            | err _ ↦ (rollback_txn updated.0, err eio)
            | ok _ ↦ (committed.0, or_eio committed.1)
          ]
        ]
      ]

  unfoldable pub mkdir :
      ℕ → ℕ → ℕ → ℕ → Option Bytes → ℕ → Session env.Conn → Session env.Conn × Result Errno FileAttr
  mkdir uid gid now parent name mode fs = elim (to_str name) [
    | err e ↦ (fs, err e)
    | ok s ↦ elim (check_new parent s fs) [
      | err e ↦ (fs, err e)
      | ok (p, ino) ↦
          let dir = mkdir_child uid gid now mode parent s ino in
          let after = insert_child dir (mkdir_parent p ino) fs in (after.0, reply_attr dir after.1)
    ]
  ]

  -- The part of `create` before the handle is opened.
  unfoldable pub create_inode :
      ℕ → ℕ → ℕ → ℕ → Option Bytes → ℕ → Session env.Conn → Session env.Conn × Result Errno FileAttr
  create_inode uid gid now parent name mode fs = elim (to_str name) [
    | err e ↦ (fs, err e)
    | ok s ↦ elim (check_new parent s fs) [
      | err e ↦ (fs, err e)
      | ok (p, ino) ↦
          let file = new_file now parent s mode uid gid ino in
          let after = insert_child file (create_parent p ino) fs in
          (after.0, reply_attr file after.1)
    ]
  ]

  -- `if let Ok(Some(mut i)) = store.get(ino) { …; let _ = store.update(&i); }`
  unfoldable pub change_inode : ℕ → (Inode → Inode) → Session env.Conn → Session env.Conn
  change_inode ino f fs = elim (get_inode env ino fs) [
    | err _ ↦ fs
    | ok none ↦ fs
    | ok (some i) ↦ (update_inode env (f i) fs).0
  ]

  -- The end of `unlink` and `rmdir`: the parent is changed and the inode deleted.
  unfoldable pub delete_child :
      ℕ → (Inode → Inode) → ℕ → Session env.Conn → Session env.Conn × Result Errno (Unit {0})
  delete_child parent f ino fs =
      let begun = begin_txn fs in
      let deleted = delete_inode env ino (change_inode parent f begun.0) in
      elim begun.1 [
        | err _ ↦ (begun.0, err eio)
        | ok _ ↦ elim deleted.1 [
          | err _ ↦ (rollback_txn deleted.0, err eio)
          | ok _ ↦ ((commit_txn deleted.0).0, ok tt)
        ]
      ]

  unfoldable pub unlink :
      ℕ → Option Bytes → Session env.Conn → Session env.Conn × Result Errno (Unit {0})
  unlink parent name fs = elim (to_str name >>= λ s. existing (lookup_inode env parent s fs)) [
    | err e ↦ (fs, err e)
    | ok i ↦
        if is_dir i
        then (fs, err eisdir)
        else delete_child parent (λ (p : Inode). record p { children = without i.ino p.children })
            i.ino fs
  ]

  unfoldable pub rmdir :
      ℕ → Option Bytes → Session env.Conn → Session env.Conn × Result Errno (Unit {0})
  rmdir parent name fs = elim (to_str name >>= λ s. existing (lookup_inode env parent s fs)) [
    | err e ↦ (fs, err e)
    | ok i ↦
        if not (is_dir i)
        then (fs, err enotdir)
        else if not (is_empty i.children)
        then (fs, err enotempty)
        else delete_child parent
            (λ (p : Inode). record p { children = without i.ino p.children; nlink = p.nlink - 1 })
            i.ino fs
  ]

  unfoldable pub readdir : ℕ → ℕ → Session env.Conn → Result Errno (List (ℕ × FileType × Bytes))
  readdir ino offset fs = do
    i ← existing (get_inode env ino fs)
    guard (is_dir i) enotdir
    children ← or_eio (list_children env ino fs)
    ok (
        drop offset (
          (ino, directory, b'.' ∷ [])
          ∷ (max i.parent 1, directory, b'.' ∷ b'.' ∷ [])
          ∷ map (λ (c : Inode). (c.ino, c.file_type, c.name)) children))
