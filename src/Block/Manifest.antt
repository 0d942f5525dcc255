-- ===== src/Block/Manifest.antt =====
-- crates/tgcryptfs-core/src/block/pointer.rs: the block pointers of a file, the check of a manifest,
-- and the search for the blocks of a byte range. A u64 sum wraps, as in the release profile.
pub mod Tiling
pub mod Range
use tgcryptfs.Common.{
  ℕ, ◌+◌, Bool, ◌&&◌, List, [], ◌∷◌, Result, ok, err, ltb, ◌==◌, if◌then◌else◌, add_u64, filterb,
}

pub record BlockPointer : Type 0 where
  pub rid : List ℕ
  pub message_id : ℕ
  pub file_offset : ℕ
  pub length : ℕ
  pub block_data_offset : ℕ
  pub encrypted_size : ℕ
  pub compressed : Bool
  pub content_hash : List ℕ
  pub epoch : ℕ

pub record FileManifest : Type 0 where
  pub inode : ℕ
  pub version : ℕ
  pub total_size : ℕ
  pub file_hash : List ℕ
  pub blocks : List BlockPointer

-- The messages of `validate`, with the numbers that they print.
pub data Defect : Type 0 where
  empty_with_size : Defect
  first_not_at_zero : ℕ → Defect
  overlap gap : ℕ → ℕ → ℕ → Defect
  ends_elsewhere : ℕ → ℕ → Defect

abbrev pub Check : Type 0
Check = Result Defect (Unit {0})

-- `file_offset + length`
abbrev pub block_end : BlockPointer → ℕ
block_end bp = add_u64 bp.file_offset bp.length

-- The loop from block `i` on, after the block `prev`, and the test of the last block's end.
unfoldable pub check_from : ℕ → ℕ → BlockPointer → List BlockPointer → Check
check_from total i prev [] =
    if block_end prev == total then ok tt else err (ends_elsewhere (block_end prev) total)
check_from total i prev (bp ∷ rest) =
    let later = check_from total (i + 1) bp rest in
    if ltb bp.file_offset (block_end prev)
    then err (overlap i (block_end prev) bp.file_offset)
    else if ltb (block_end prev) bp.file_offset
    then err (gap i (block_end prev) bp.file_offset)
    else later

unfoldable pub check_blocks : ℕ → List BlockPointer → Check
unfolding check_from
check_blocks total [] = if total == 0 then ok tt else err empty_with_size
check_blocks total (bp ∷ rest) =
    if bp.file_offset == 0
    then check_from total 1 bp rest
    else err (first_not_at_zero bp.file_offset)

unfoldable pub validate : FileManifest → Check
unfolding check_blocks
validate m = check_blocks m.total_size m.blocks

-- The test of the filter: the block overlaps `[offset, range_end)`.
abbrev pub in_range : ℕ → ℕ → BlockPointer → Bool
in_range offset range_end bp = ltb bp.file_offset range_end && ltb offset (block_end bp)

unfoldable pub blocks_in_range : FileManifest → ℕ → ℕ → List BlockPointer
blocks_in_range m offset len = filterb (in_range offset (add_u64 offset len)) m.blocks
