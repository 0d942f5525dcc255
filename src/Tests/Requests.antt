-- ===== src/Tests/Requests.antt =====
-- Requests to a file system on the toy database.
use tgcryptfs.Crypto.Aead.{Bytes, encrypt, decrypt}
use tgcryptfs.Common.Dict.{list_eq, nat_eq}
use tgcryptfs.Tests.Databases.{toy_env, ToyConn, empty_session}
use tgcryptfs.Fuse.Inode.{Inode, directory, new_dir}
use tgcryptfs.Fuse.Database.{effect, selects, conflicts, select, by_ino, by_name}
use tgcryptfs.Fuse.Store.{
  Session, inode_aad, sealed_inode, opened_inode, run, insert_inode, update_inode, first_inode,
  all_inodes, get_inode, lookup_inode, list_children, next_ino,
}
use tgcryptfs.Fuse.Store.RoundTrip.{get_inode-insert_inode}
use tgcryptfs.Fuse.Requests.{init, check_new, insert_child, mkdir, readdir}
use tgcryptfs.Fuse.Requests.Rename.{check_rename, rename}
use tgcryptfs.Fuse.Requests.Rename.Open.{rename-LeftOpen}
use tgcryptfs.Fuse.Requests.Atomic.{LeftOpen}
use tgcryptfs.Common.{ℕ, ◌≡◌, refl, Bool, true, false, Option, some, List, [], ◌∷◌, ok, is_ok}

abbrev name_a : Bytes
name_a = b'a' ∷ []

abbrev name_b : Bytes
name_b = b'b' ∷ []

abbrev started : List Bool → Session ToyConn
started faults = (init toy_env 7 8 5 (empty_session (false ∷ faults))).0

abbrev made : Session ToyConn → ℕ → Bytes → Session ToyConn
made fs parent name = (mkdir toy_env 7 8 6 parent (some name) 493 fs).0

-- The directories a, b and b/a.
abbrev tree : Session ToyConn
tree = made (made (made (started []) 1 name_a) 1 name_b) 3 name_a

lists_both :
    readdir toy_env 1 0 tree
    ≡ ok (
        (1, directory, b'.' ∷ [])
        ∷ (1, directory, b'.' ∷ b'.' ∷ [])
        ∷ (2, directory, name_a)
        ∷ (3, directory, name_b)
        ∷ [])
unfolding init mkdir check_new insert_child readdir run insert_inode update_inode get_inode
    lookup_inode list_children next_ino first_inode all_inodes sealed_inode opened_inode inode_aad
    encrypt decrypt effect selects conflicts
lists_both = refl

-- An insert that fails: the rows are those from before.
failed_insert : (made (started (false ∷ true ∷ [])) 1 name_a).conn.0 ≡ (started []).conn.0
unfolding init mkdir check_new insert_child run insert_inode update_inode get_inode lookup_inode
    next_ino first_inode sealed_inode opened_inode inode_aad encrypt decrypt effect selects
    conflicts
failed_insert = refl

abbrev dir_a : Inode
dir_a = new_dir 6 1 name_a 493 7 8 2

abbrev with_a : Session ToyConn
with_a = (insert_inode toy_env dir_a (started [])).0

get_inode-insert_inode_example :
    (get_inode toy_env 2 with_a ≡ ok (some dir_a))
    × (lookup_inode toy_env 1 name_a with_a ≡ ok (some dir_a))
unfolding init run insert_inode get_inode first_inode sealed_inode opened_inode inode_aad encrypt
    decrypt effect conflicts
get_inode-insert_inode_example =
    get_inode-insert_inode toy_env dir_a (started []) (select (by_ino 2) with_a.conn.0.rows)
      (select (by_name 1 name_a) with_a.conn.0.rows) refl refl refl

rename-LeftOpen_example :
    LeftOpen toy_env tree (rename toy_env 9 1 (some name_a) 1 (some name_b) tree).0
    × ((uid gid later under : ℕ) (child : Option Bytes) (mode : ℕ)
        → is_ok
            (mkdir toy_env uid gid later under child mode
              (rename toy_env 9 1 (some name_a) 1 (some name_b) tree).0).1
          ≡ false)
unfolding init mkdir check_new insert_child run insert_inode update_inode get_inode lookup_inode
    next_ino first_inode sealed_inode opened_inode inode_aad encrypt decrypt effect selects
    conflicts rename check_rename
rename-LeftOpen_example = rename-LeftOpen toy_env 9 1 (some name_a) 1 (some name_b) tree refl
