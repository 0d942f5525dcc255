-- ===== src/Block/Manifest/Range.antt =====
-- `blocks_in_range` of block/pointer.rs: what a read of a byte range needs.
use tgcryptfs.Common.{
  All-filterb, ℕ, ◌+◌, ◌≤◌, ◌<◌, ◌≡◌, refl, ◌∙◌, ◌&&◌, List, [], ◌∷◌, arith, ltb, leb,
  if◌then◌else◌, u64_mod, add_u64, ok, filterb, All,
}
use tgcryptfs.Block.Manifest.{BlockPointer, FileManifest, validate, in_range, blocks_in_range}
use tgcryptfs.Block.Manifest.Tiling.{FitsU64, Tiles, covers, validate_iff-Tiles}

Tiles-le : (a b : ℕ) (bs : List BlockPointer) → Tiles a bs b → a ≤ b
Tiles-le a b [] t = omega arith
Tiles-le a b (bp ∷ rest) t = omega (arith, Tiles-le (a + bp.length) b rest t.1)

-- Blocks that tile [a, b) hold each byte of it once, and no other byte.
pub covers_of_Tiles :
    (p a b : ℕ) (bs : List BlockPointer)
    → Tiles a bs b
    → covers p bs ≡ (if leb a p && ltb p b then 1 else 0)
covers_of_Tiles p a b [] t = ground arith
covers_of_Tiles p a b (bp ∷ rest) t =
    ground
      (arith, Tiles-le (a + bp.length) b rest t.1, covers_of_Tiles p (a + bp.length) b rest t.1)

-- In a manifest that `validate` accepts, where no block ends past 2^64, each byte of the file is
-- in exactly one block, and no block holds a byte past the end of the file.
pub validate-covers :
    (m : FileManifest) (p : ℕ)
    → FitsU64 m.blocks
    → validate m ≡ ok tt
    → covers p m.blocks ≡ (if ltb p m.total_size then 1 else 0)
validate-covers m p fits h =
    ground (arith, covers_of_Tiles p 0 m.total_size m.blocks ((validate_iff-Tiles m fits).0 h))

covers-filter :
    (p offset range_end : ℕ) (bs : List BlockPointer)
    → FitsU64 bs
    → offset ≤ p
    → p < range_end
    → covers p (filterb (in_range offset range_end) bs) ≡ covers p bs
covers-filter p offset range_end [] fits lo hi = refl
covers-filter p offset range_end (bp ∷ rest) fits lo hi =
    ground (arith, covers-filter p offset range_end rest fits.1 lo hi)

-- For a manifest that `validate` accepts, where no block ends past 2^64, and a range that does not
-- end past 2^64, `blocks_in_range` returns exactly one block with the byte at `p`, for each `p` of
-- the range below the file's size, and none for a `p` of the range past it.
pub blocks_in_range-covers :
    (m : FileManifest) (offset len p : ℕ)
    → FitsU64 m.blocks
    → validate m ≡ ok tt
    → offset + len < u64_mod
    → offset ≤ p
    → p < offset + len
    → covers p (blocks_in_range m offset len) ≡ (if ltb p m.total_size then 1 else 0)
unfolding blocks_in_range
blocks_in_range-covers m offset len p fits h small lo hi =
    let e : add_u64 offset len ≡ offset + len = omega arith in
    rw e (covers-filter p offset (offset + len) m.blocks fits lo hi ∙ validate-covers m p fits h)

-- Every block that `blocks_in_range` returns, of a list where no block ends past 2^64, overlaps the
-- range: it begins before the range's end and ends after the range's start.
blocks_in_range-overlap :
    (m : FileManifest) (offset len : ℕ)
    → FitsU64 m.blocks
    → offset + len < u64_mod
    → All
        (λ bp. (bp.file_offset < offset + len) × (offset < bp.file_offset + bp.length))
        (blocks_in_range m offset len)
unfolding blocks_in_range
blocks_in_range-overlap m offset len fits small =
    let e : add_u64 offset len ≡ offset + len = omega arith in
    rw e (
      All-filterb (in_range offset (offset + len)) (λ bp fit hit. (ground arith, ground arith))
        m.blocks fits)
