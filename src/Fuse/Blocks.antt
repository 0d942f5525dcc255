-- ===== src/Fuse/Blocks.antt =====
-- crates/tgcryptfs-store/src/block_store.rs: the records of the uploaded blocks.
use tgcryptfs.Crypto.Aead.{Bytes}
use tgcryptfs.Fuse.BlockRows.{
  BlockRecord, is_positive, insert_block, add_ref, sub_ref, delete_block, set_epoch, BlockQuery,
  by_rid, by_content_hash, by_epoch,
}
use tgcryptfs.Fuse.Database.{on_blocks}
use tgcryptfs.Fuse.Store.{Env, Session, StoreError, sql, run, answer}
use tgcryptfs.Common.{ℕ, Bool, not, Option, none, some, List, [], ◌∷◌, Result, ok, err, ◌>>=◌}

abbrev pub first_block : List BlockRecord → Option BlockRecord
first_block [] = none
first_block (b ∷ _) = some b

module _ (env : Env) where
  abbrev pub Done : Type 0
  Done = Session env.Conn × Result StoreError (Unit {0})

  unfoldable pub insert_record : BlockRecord → Session env.Conn → Done
  insert_record block fs = run env (on_blocks (insert_block block)) fs

  unfoldable pub ask : BlockQuery → Session env.Conn → Result StoreError (List BlockRecord)
  ask q fs = answer env (env.query_blocks q fs.conn)

  unfoldable pub get_block : Bytes → Session env.Conn → Result StoreError (Option BlockRecord)
  get_block rid fs = do blocks ← ask (by_rid rid) fs; ok (first_block blocks)

  unfoldable pub find_by_content_hash :
      Bytes → Session env.Conn → Result StoreError (Option BlockRecord)
  find_by_content_hash content_hash fs = do
    blocks ← ask (by_content_hash content_hash) fs
    ok (first_block blocks)

  unfoldable pub increment_ref : Bytes → Session env.Conn → Done
  increment_ref rid fs = run env (on_blocks (add_ref rid)) fs

  abbrev pub can_collect : List BlockRecord → Result StoreError Bool
  can_collect [] = err sql
  can_collect (b ∷ _) = ok (not (is_positive b.ref_count))

  -- Whether no reference is left; `query_row` fails on a missing row.
  unfoldable pub decrement_ref :
      Bytes → Session env.Conn → Session env.Conn × Result StoreError Bool
  decrement_ref rid fs =
      let updated = run env (on_blocks (sub_ref rid)) fs in
      (updated.0, updated.1 >>= λ _. ask (by_rid rid) updated.0 >>= can_collect)

  unfoldable pub list_by_epoch : ℕ → Session env.Conn → Result StoreError (List BlockRecord)
  list_by_epoch epoch fs = ask (by_epoch epoch) fs

  unfoldable pub update_block_epoch : Bytes → ℕ → ℕ → ℕ → Session env.Conn → Done
  update_block_epoch rid new_epoch new_message_id new_encrypted_size fs =
      run env (on_blocks (set_epoch rid new_epoch new_message_id new_encrypted_size)) fs

  unfoldable pub delete_record : Bytes → Session env.Conn → Done
  delete_record rid fs = run env (on_blocks (delete_block rid)) fs
