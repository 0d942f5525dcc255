-- ===== src/Fuse/Requests/Rename.antt =====
-- `rename` and `symlink` of crates/tgcryptfs-fuse/src/fs.rs.
pub mod Open
use tgcryptfs.Crypto.Aead.{Bytes}
use tgcryptfs.Fuse.Inode.{Inode, FileAttr, new_symlink, is_dir, inode_to_attr}
use tgcryptfs.Fuse.Store.{
  Env, Session, StoreError, insert_inode, update_inode, delete_inode, get_inode, lookup_inode,
  next_ino,
}
use tgcryptfs.Fuse.Requests.{
  Errno, einval, enoent, eio, enotempty, to_str, existing, or_eio, without, begin_txn, commit_txn,
  change_inode, create_parent,
}
use tgcryptfs.Common.{
  ℕ, ◌+◌, ◌-◌, ◌%◌, Bool, false, not, ◌&&◌, Option, none, some, [], ◌∷◌, ◌++◌, if◌then◌else◌,
  u32_mod, Result, ok, err, ◌>>=◌, ◌>>◌, is_empty,
}

-- What stands at the destination keeps the rename from replacing it.
abbrev pub blocks : Result StoreError (Option Inode) → Bool
blocks (ok (some i)) = is_dir i && not (is_empty i.children)
blocks (ok none) = false
blocks (err _) = false

module _ (env : Env) where
  -- The two names, and the inode to move.
  unfoldable pub check_rename :
      ℕ → Option Bytes → Option Bytes → Session env.Conn → Result Errno (Bytes × Inode)
  check_rename parent name newname fs = do
    s ← to_str name
    n ← to_str newname
    i ← existing (lookup_inode env parent s fs)
    ok (n, i)

  -- What stood at the destination is deleted, and taken from the new parent.
  unfoldable pub replace_existing :
      ℕ → Result StoreError (Option Inode) → Session env.Conn → Session env.Conn
  replace_existing newparent (ok (some old)) fs =
      change_inode env newparent (λ (p : Inode). record p { children = without old.ino p.children })
        (delete_inode env old.ino fs).0
  replace_existing newparent (ok none) fs = fs
  replace_existing newparent (err _) fs = fs

  -- From the old parent on; what the store answers here is not looked at.
  unfoldable pub move_inode : ℕ → ℕ → ℕ → Bytes → Inode → Session env.Conn → Session env.Conn
  move_inode now parent newparent newname i fs =
      let links = if is_dir i then 1 else 0 in
      let moved = record i {
        name = newname;
        parent = newparent;
        timestamps = record i.timestamps { ctime_ns = now };
      } in
      let fs1 =
        change_inode env parent
          (λ (p : Inode). record p { children = without i.ino p.children; nlink = p.nlink - links })
          fs in
      let fs2 = (update_inode env moved fs1).0 in
      change_inode env newparent
        (λ (p : Inode). record p {
          children = p.children ++ i.ino ∷ [];
          nlink = (p.nlink + links) % u32_mod;
        })
        fs2

  unfoldable pub rename :
      ℕ
      → ℕ
      → Option Bytes
      → ℕ
      → Option Bytes
      → Session env.Conn
      → Session env.Conn × Result Errno (Unit {0})
  rename now parent name newparent newname fs = elim (check_rename parent name newname fs) [
    | err e ↦ (fs, err e)
    | ok (n, i) ↦
        let begun = begin_txn env fs in
        let old = lookup_inode env newparent n begun.0 in
        elim begun.1 [
          | err _ ↦ (begun.0, err eio)
          | ok _ ↦ if blocks old then (begun.0, err enotempty) else (
            (commit_txn env
                (move_inode now parent newparent n i (replace_existing newparent old begun.0))).0,
            ok tt,
          )
        ]
  ]

  -- `_ => ENOENT`
  abbrev pub dir_or_enoent : Result StoreError (Option Inode) → Result Errno Inode
  dir_or_enoent (ok (some p)) = if is_dir p then ok p else err enoent
  dir_or_enoent (ok none) = err enoent
  dir_or_enoent (err _) = err enoent

  unfoldable pub check_symlink :
      ℕ → Option Bytes → Option Bytes → Session env.Conn → Result Errno (Bytes × Bytes × Inode × ℕ)
  check_symlink parent name target fs = do
    s ← to_str name
    t ← to_str target
    p ← dir_or_enoent (get_inode env parent fs)
    ino ← or_eio (next_ino env fs)
    ok (s, t, p, ino)

  unfoldable pub symlink_request :
      ℕ
      → ℕ
      → ℕ
      → ℕ
      → Option Bytes
      → Option Bytes
      → Session env.Conn
      → Session env.Conn × Result Errno FileAttr
  symlink_request uid gid now parent name target fs = elim (check_symlink parent name target fs) [
    | err e ↦ (fs, err e)
    | ok (s, t, p, ino) ↦
        let link = new_symlink now parent s t uid gid ino in
        let inserted = insert_inode env link fs in
        elim inserted.1 [
          | err _ ↦ (inserted.0, err eio)
          | ok _ ↦ ((update_inode env (create_parent p ino) inserted.0).0, ok (inode_to_attr link))
        ]
  ]
