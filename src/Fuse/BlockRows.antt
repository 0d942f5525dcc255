-- ===== src/Fuse/BlockRows.antt =====
-- The table of blocks that crates/tgcryptfs-store/src/migrations.rs makes, and the statements that
-- block_store.rs runs on it. A reference count is an i64, which may fall below zero.
use tgcryptfs.Crypto.Aead.{Bytes}
use tgcryptfs.Common.Dict.{list_beq, nat_eq}
use tgcryptfs.Common.{
  ℕ, zero, suc, ◌+◌, Bool, false, not, Option, none, some, List, [], ◌∷◌, ◌++◌, map, ltb, ◌==◌,
  if◌then◌else◌, is_empty, filterb,
}

-- `negsuc n` is -(n + 1).
pub data ℤ : Type 0 where
  pos : ℕ → ℤ
  negsuc : ℕ → ℤ

unfoldable pub increment : ℤ → ℤ
increment (pos n) = pos (n + 1)
increment (negsuc zero) = pos 0
increment (negsuc (suc n)) = negsuc n

unfoldable pub decrement : ℤ → ℤ
decrement (pos zero) = negsuc 0
decrement (pos (suc n)) = pos n
decrement (negsuc n) = negsuc (n + 1)

-- `rc <= 0`
abbrev pub is_positive : ℤ → Bool
is_positive (pos n) = ltb 0 n
is_positive (negsuc n) = false

pub record BlockRecord : Type 0 where
  pub rid : Bytes
  pub content_hash : Bytes
  pub message_id : ℕ
  pub encrypted_size : ℕ
  pub epoch : ℕ
  pub ref_count : ℤ
  pub compressed : Bool

pub data BlockStatement : Type 0 where
  insert_block : BlockRecord → BlockStatement
  add_ref sub_ref delete_block : Bytes → BlockStatement
  set_epoch : Bytes → ℕ → ℕ → ℕ → BlockStatement

pub data BlockQuery : Type 0 where
  by_rid by_content_hash : Bytes → BlockQuery
  by_epoch : ℕ → BlockQuery

unfoldable pub selects_block : BlockQuery → BlockRecord → Bool
selects_block (by_rid rid) b = list_beq b.rid rid
selects_block (by_content_hash content_hash) b = list_beq b.content_hash content_hash
selects_block (by_epoch epoch) b = b.epoch == epoch

abbrev pub select_blocks : BlockQuery → List BlockRecord → List BlockRecord
select_blocks q blocks = filterb (selects_block q) blocks

-- SET on the row with the random id, which is the primary key.
abbrev pub set_block : Bytes → (BlockRecord → BlockRecord) → BlockRecord → BlockRecord
set_block rid f b = if list_beq b.rid rid then f b else b

-- What a statement makes of the blocks; `none`: it must fail.
unfoldable pub block_effect : BlockStatement → List BlockRecord → Option (List BlockRecord)
block_effect (insert_block b) blocks =
    if is_empty (select_blocks (by_rid b.rid) blocks) then some (blocks ++ b ∷ []) else none
block_effect (add_ref rid) blocks = some (
    map (set_block rid (λ (b : BlockRecord). record b { ref_count = increment b.ref_count }))
      blocks)
block_effect (sub_ref rid) blocks = some (
    map (set_block rid (λ (b : BlockRecord). record b { ref_count = decrement b.ref_count }))
      blocks)
block_effect (set_epoch rid epoch message_id encrypted_size) blocks = some (
    map
      (set_block rid (λ (b : BlockRecord). record b {
        epoch = epoch;
        message_id = message_id;
        encrypted_size = encrypted_size;
      }))
      blocks)
block_effect (delete_block rid) blocks =
    some (filterb (λ (b : BlockRecord). not (list_beq b.rid rid)) blocks)
