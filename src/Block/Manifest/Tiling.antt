-- ===== src/Block/Manifest/Tiling.antt =====
-- `validate` of block/pointer.rs, against the invariant that its comment states: the blocks cover
-- [0, total_size) with no gap and no overlap, in the order of their offsets.
use tgcryptfs.Common.{
  ℕ, suc, ◌+◌, ◌<◌, ◌≡◌, ◌↔◌, Bool, ◌&&◌, List, [], ◌∷◌, arith, ltb, leb, if◌then◌else◌, u64_mod,
  ok, All,
}
use tgcryptfs.Block.Manifest.{BlockPointer, FileManifest, check_from, check_blocks, validate}

-- No block ends past 2^64, so that no sum of an offset and a length wraps.
abbrev pub FitsU64 : List BlockPointer → Type 0
FitsU64 = All (λ bp. bp.file_offset + bp.length < u64_mod)

-- The blocks follow one another from `a` to `b`.
abbrev pub Tiles : ℕ → List BlockPointer → ℕ → Type 0
Tiles a [] b = a ≡ b
Tiles a (bp ∷ rest) b = (bp.file_offset ≡ a) × Tiles (a + bp.length) rest b

abbrev pub covers_byte : ℕ → BlockPointer → Bool
covers_byte p bp = leb bp.file_offset p && ltb p (bp.file_offset + bp.length)

-- How many of the blocks hold the byte at `p`.
abbrev pub covers : ℕ → List BlockPointer → ℕ
covers p [] = 0
covers p (bp ∷ rest) = let n = covers p rest in if covers_byte p bp then suc n else n

check_from-Tiles :
    (total i : ℕ) (prev : BlockPointer) (rest : List BlockPointer)
    → FitsU64 (prev ∷ rest)
    → check_from total i prev rest ≡ ok tt
    → Tiles (prev.file_offset + prev.length) rest total
unfolding check_from
check_from-Tiles total i prev [] fits h = ground arith
check_from-Tiles total i prev (bp ∷ rest) fits h =
    let e : bp.file_offset ≡ prev.file_offset + prev.length = ground arith in
    (e, rw (← e) (check_from-Tiles total (i + 1) bp rest fits.1 (ground arith)))

Tiles-check_from :
    (total i : ℕ) (prev : BlockPointer) (rest : List BlockPointer)
    → FitsU64 (prev ∷ rest)
    → Tiles (prev.file_offset + prev.length) rest total
    → check_from total i prev rest ≡ ok tt
unfolding check_from
Tiles-check_from total i prev [] fits h = ground arith
Tiles-check_from total i prev (bp ∷ rest) fits h =
    let t : Tiles (bp.file_offset + bp.length) rest total = rw h.0 h.1 in
    ground (arith, Tiles-check_from total (i + 1) bp rest fits.1 t)

-- If no block ends past 2^64, `validate` accepts a manifest exactly when its blocks tile
-- [0, total_size).
pub validate_iff-Tiles :
    (m : FileManifest) → FitsU64 m.blocks → (validate m ≡ ok tt) ↔ Tiles 0 m.blocks m.total_size
unfolding validate
validate_iff-Tiles m fits = go m.blocks fits
  where
    go :
        (bs : List BlockPointer)
        → FitsU64 bs
        → (check_blocks m.total_size bs ≡ ok tt) ↔ Tiles 0 bs m.total_size
    go [] f = ground arith
    go (bp ∷ rest) f = (
      λ h.
          let z : bp.file_offset ≡ 0 = ground arith in
          (z, rw (← z) (check_from-Tiles m.total_size 1 bp rest f (ground arith))),
      λ t. ground (arith, Tiles-check_from m.total_size 1 bp rest f (rw t.0 t.1)),
    )
