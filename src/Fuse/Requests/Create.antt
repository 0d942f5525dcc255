-- ===== src/Fuse/Requests/Create.antt =====
-- The whole of `mkdir` and of `create` up to the handle.
use tgcryptfs.Crypto.Aead.{Bytes}
use tgcryptfs.Fuse.Inode.{Inode, FileAttr, inode_to_attr}
use tgcryptfs.Fuse.Store.{Env, Session}
use tgcryptfs.Fuse.Store.Steps.{table_of}
use tgcryptfs.Fuse.Requests.{Errno, check_new, insert_child, reply_attr}
use tgcryptfs.Fuse.Requests.Atomic.{Unchanged, LeftOpen, Adds, Atomically, insert_child-IsAtomic}
use tgcryptfs.Common.{ℕ, ◌≡◌, refl, ◌⊎◌, inl, inr, false, Option, none, some, Result, ok, is_ok}

module _ (env : Env) where
  abbrev pub Outcome : Type 0
  Outcome = Session env.Conn × Result Errno FileAttr

  -- The request has added the child, for a name and a parent that pass the checks.
  abbrev pub Added :
      (Bytes → ℕ → Inode)
      → (Inode → ℕ → Inode)
      → ℕ
      → Option Bytes
      → Session env.Conn
      → Outcome
      → Type 0
  Added child above parent name fs out =
      (s : Bytes) × (p : Inode) × (ino : ℕ) × (name ≡ some s)
      × (check_new env parent s fs ≡ ok (p, ino))
      × (out.1 ≡ ok (inode_to_attr (child s ino)))
      × Adds env (child s ino) (above p ino) fs out.0

  -- The request has failed, and the rows are those from before or can be had back.
  abbrev pub Refused : Session env.Conn → Outcome → Type 0
  Refused fs out = (is_ok out.1 ≡ false) × (Unchanged env fs out.0 ⊎ LeftOpen env fs out.0)

  answered :
      (child parent : Inode) (fs : Session env.Conn)
      → (table_of env fs).before ≡ none
      → let after = insert_child env child parent fs in
        let out : Outcome = (after.0, reply_attr child after.1) in
        ((out.1 ≡ ok (inode_to_attr child)) × Adds env child parent fs out.0) ⊎ Refused fs out
  answered child parent fs closed =
      let atomically : Atomically env child parent fs (insert_child env child parent fs) =
        insert_child-IsAtomic env child parent fs closed in
      elim atomically [
        | inl (e, adds) ↦ inl (rw e refl, adds)
        | inr (e, rest) ↦ inr (rw e refl, rest)
      ]
