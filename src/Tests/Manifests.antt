-- ===== src/Tests/Manifests.antt =====
-- Manifests of two blocks, with tests from the source's own.
use tgcryptfs.Block.Manifest.{
  BlockPointer, FileManifest, overlap, gap, check_from, check_blocks, validate, blocks_in_range,
}
use tgcryptfs.Block.Manifest.Tiling.{Tiles, covers, FitsU64, validate_iff-Tiles}
use tgcryptfs.Block.Manifest.Range.{blocks_in_range-covers}
use tgcryptfs.Common.{ℕ, ◌+◌, ◌≡◌, refl, ◌↔◌, false, List, [], ◌∷◌, arith, ok, err}

abbrev make_block : ℕ → ℕ → BlockPointer
make_block file_offset size = record {
  rid = [];
  message_id = 0;
  file_offset = file_offset;
  length = size;
  block_data_offset = 0;
  encrypted_size = size + 40;
  compressed = false;
  content_hash = [];
  epoch = 0;
}

abbrev manifest : ℕ → List BlockPointer → FileManifest
manifest total blocks = record {
  inode = 1;
  version = 0;
  total_size = total;
  file_hash = [];
  blocks = blocks;
}

abbrev two_blocks : FileManifest
two_blocks = manifest 2000 (make_block 0 1000 ∷ make_block 1000 1000 ∷ [])

two_blocks_valid : validate two_blocks ≡ ok tt
unfolding validate check_blocks check_from
two_blocks_valid = refl

gap_detected :
    validate (manifest 3000 (make_block 0 1000 ∷ make_block 1500 1500 ∷ [])) ≡ err (gap 1 1000 1500)
unfolding validate check_blocks check_from
gap_detected = refl

overlap_detected :
    validate (manifest 2500 (make_block 0 1500 ∷ make_block 1000 1500 ∷ []))
    ≡ err (overlap 1 1500 1000)
unfolding validate check_blocks check_from
overlap_detected = refl

exact_boundary : blocks_in_range two_blocks 1000 500 ≡ make_block 1000 1000 ∷ []
unfolding blocks_in_range
exact_boundary = refl

two_blocks-FitsU64 : FitsU64 two_blocks.blocks
two_blocks-FitsU64 = omega arith

validate_iff-Tiles_example :
    (validate two_blocks ≡ ok tt) ↔ Tiles 0 two_blocks.blocks two_blocks.total_size
validate_iff-Tiles_example = validate_iff-Tiles two_blocks two_blocks-FitsU64

blocks_in_range-covers_example : covers 1200 (blocks_in_range two_blocks 500 1000) ≡ 1
blocks_in_range-covers_example =
    blocks_in_range-covers two_blocks 500 1000 1200 two_blocks-FitsU64 two_blocks_valid
      (omega arith) (omega arith) (omega arith)
