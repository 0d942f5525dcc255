-- ===== src/Tests/Attributes.antt =====
-- Runs of `setattr` and of the block store on the toy database.
use tgcryptfs.Crypto.Aead.{encrypt, decrypt}
use tgcryptfs.Common.Dict.{list_eq, nat_eq}
use tgcryptfs.Tests.Databases.{toy_env, ToyConn, empty_session}
use tgcryptfs.Fuse.Inode.{Inode, new_dir}
use tgcryptfs.Fuse.BlockRows.{BlockRecord, pos, block_effect, selects_block, increment, decrement}
use tgcryptfs.Fuse.Database.{effect, selects, conflicts}
use tgcryptfs.Fuse.Store.{
  Session, sql, run, insert_inode, update_inode, get_inode, first_inode, sealed_inode, opened_inode,
  inode_aad,
}
use tgcryptfs.Fuse.Blocks.{
  ask, insert_record, find_by_content_hash, increment_ref, decrement_ref, delete_record,
}
use tgcryptfs.Fuse.Release.{changed, setattr}
use tgcryptfs.Common.{◌≡◌, refl, true, false, none, some, [], ◌∷◌, ok, err}

abbrev dir : Inode
dir = new_dir 6 1 [] 493 7 8 2

abbrev one_dir : Session ToyConn
one_dir = (insert_inode toy_env dir (empty_session [])).0

-- The new mode and the time of the change are stored, and the rest is kept.
sets_mode :
    get_inode toy_env 2 (setattr toy_env 9 2 (some 448) none none none none none one_dir).0
    ≡ ok (some (record dir { mode = 448; timestamps = record dir.timestamps { ctime_ns = 9 } }))
unfolding setattr changed run insert_inode update_inode get_inode first_inode sealed_inode
    opened_inode inode_aad encrypt decrypt effect selects conflicts
sets_mode = refl

abbrev block : BlockRecord
block = record {
  rid = 1 ∷ [];
  content_hash = 2 ∷ [];
  message_id = 3;
  encrypted_size = 4;
  epoch = 0;
  ref_count = pos 1;
  compressed = false;
}

abbrev stored_block : Session ToyConn
stored_block = (insert_record toy_env block (empty_session [])).0

abbrev twice : Session ToyConn
twice = (increment_ref toy_env (1 ∷ []) stored_block).0

-- The second of two references can be given up, and the first not before.
counts_down :
    ((decrement_ref toy_env (1 ∷ []) twice).1 ≡ ok false)
    × ((decrement_ref toy_env (1 ∷ []) (decrement_ref toy_env (1 ∷ []) twice).0).1 ≡ ok true)
    × ((decrement_ref toy_env (9 ∷ []) twice).1 ≡ err sql)
unfolding insert_record increment_ref decrement_ref ask run effect block_effect selects_block
    increment decrement
counts_down = (refl, refl, refl)

finds_content : find_by_content_hash toy_env (2 ∷ []) stored_block ≡ ok (some block)
unfolding insert_record find_by_content_hash ask run effect block_effect selects_block
finds_content = refl

same_id : (insert_record toy_env block stored_block).1 ≡ err sql
unfolding insert_record run effect block_effect selects_block
same_id = refl

deleted :
    find_by_content_hash toy_env (2 ∷ []) (delete_record toy_env (1 ∷ []) stored_block).0 ≡ ok none
unfolding insert_record delete_record find_by_content_hash ask run effect block_effect selects_block
deleted = refl
