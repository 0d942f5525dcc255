-- ===== src/Fuse/Files/Blocks.antt =====
-- `read` of a file whose blocks can be had.
use tgcryptfs.Crypto.Aead.{Bytes}
use tgcryptfs.Block.Manifest.{BlockPointer, FileManifest, validate, in_range, blocks_in_range}
use tgcryptfs.Block.Manifest.Tiling.{FitsU64, covers}
use tgcryptfs.Block.Manifest.Range.{blocks_in_range-covers}
use tgcryptfs.Fuse.Inode.{Inode}
use tgcryptfs.Fuse.Files.{Outside, State, copy_block, download_block, read_blocks, read_manifest}
use tgcryptfs.Fuse.Files.Reading.{Holds, copy_block-byte}
use tgcryptfs.Common.{
  ℕ, ◌+◌, ◌-◌, ◌≤◌, ◌<◌, min, ◌≡◌, refl, sym, ◌∙◌, inl, inr, true, some, List, [], ◌∷◌, arith, ltb,
  if◌then◌else◌, Bool-cases, u64_mod, add_u64, ok, length, take, get_or, replicate, is_empty,
  length-take, All, All-filterb, get_or-take, length-replicate,
}

covers_none : (p : ℕ) (bs : List BlockPointer) → is_empty bs ≡ true → covers p bs ≡ 0
covers_none p [] h = refl
covers_none p (bp ∷ bs) h = absurd (ground arith)

module _ (o : Outside) (Good : State o → Type 0) (byte : ℕ → ℕ) where
  -- From a good state the download of the block gives the bytes that it holds, and a good state.
  abbrev pub Supplies : BlockPointer → Type 0
  Supplies bp =
      (m : State o)
      → Good m
      → Good (download_block o bp.message_id bp.rid m).0
        × (contents : Bytes) × ((download_block o bp.message_id bp.rid m).1 ≡ some contents)
        × Holds byte bp contents

  -- The loop ends in a good state, with each byte of the range from the block that has it.
  read_blocks-byte :
      (offset len : ℕ) (bs : List BlockPointer) (m : State o) (buf : Bytes)
      → offset + len < u64_mod
      → FitsU64 bs
      → All Supplies bs
      → Good m
      → length buf ≡ len
      → (out : Bytes) × ((read_blocks o offset len bs m buf).1 ≡ some out)
        × Good (read_blocks o offset len bs m buf).0
        × (length out ≡ len)
        × ((i : ℕ)
            → i < len
            → get_or out i 0
              ≡ (if ltb 0 (covers (offset + i) bs) then byte (offset + i) else get_or buf i 0))
  unfolding read_blocks
  read_blocks-byte offset len [] m buf small fits supplied good sized =
      (buf, refl, good, sized, λ i h. refl)
  read_blocks-byte offset len (bp ∷ bs) m buf small fits supplied good sized =
      let (good1, contents, got, holds) = supplied.0 m good in
      let next = copy_block offset len bp contents buf in
      let (sized1, bytes1) =
        copy_block-byte byte offset len bp contents buf (omega arith) (omega (arith, fits.0)) holds
          sized in
      let (out, done, good2, size, bytes) =
        read_blocks-byte offset len bs (download_block o bp.message_id bp.rid m).0 next small fits.1
          supplied.1 good1 sized1 in
      let opened : read_blocks o offset len (bp ∷ bs) m buf
          ≡ read_blocks o offset len bs (download_block o bp.message_id bp.rid m).0 next =
        rw (got, read_blocks) refl in
      rw opened (out, done, good2, size, λ i h. bytes i h ∙ ground (arith, bytes1 i h))

  -- For a file with a manifest that `validate` accepts, where no block ends past 2^64, and with the
  -- manifest's size: if each block can be had from every good state and holds its bytes of the
  -- file, then a read of a range that does not end past 2^64 from a good state replies exactly the
  -- bytes of the file in the range, as many as there are, and leaves a good state.
  pub read_manifest-bytes :
      (offset size : ℕ) (i : Inode) (manifest : FileManifest) (m : State o)
      → offset + size < u64_mod
      → FitsU64 manifest.blocks
      → validate manifest ≡ ok tt
      → i.size ≡ manifest.total_size
      → All Supplies manifest.blocks
      → Good m
      → Good (read_manifest o offset size i manifest m).0
        × (length (read_manifest o offset size i manifest m).1
            ≡ min size (manifest.total_size - offset))
        × ((k : ℕ)
            → k < min size (manifest.total_size - offset)
            → get_or (read_manifest o offset size i manifest m).1 k 0 ≡ byte (offset + k))
  unfolding read_manifest blocks_in_range
  read_manifest-bytes offset size i manifest m small fits valid same supplied good =
      let needed = blocks_in_range manifest offset size in
      let meets = in_range offset (add_u64 offset size) in
      let buf : Bytes = replicate size 0 in
      let (out, done, good1, sized, bytes) =
        read_blocks-byte offset size needed m buf small
          (All-filterb meets (λ bp fit hit. fit) manifest.blocks fits)
          (All-filterb meets (λ bp s hit. s) manifest.blocks supplied) good
          (length-replicate 0 size) in
      let covered : (k : ℕ)
          → k < size
          → covers (offset + k) needed ≡ (if ltb (offset + k) manifest.total_size then 1 else 0) =
        λ k h.
          blocks_in_range-covers manifest offset size (offset + k) fits valid small (omega arith)
            (omega arith) in
      let opened : read_manifest o offset size i manifest m ≡ (
        (read_blocks o offset size needed m buf).0,
        if is_empty needed then [] else take (min size (i.size - offset)) out,
      ) =
        rw (done, read_manifest) refl in
      elim (Bool-cases (is_empty needed)) [
        | inl free ↦
            let past : 0 < size → manifest.total_size ≤ offset =
              λ h. ground (arith, covered 0 h, covers_none (offset + 0) needed free) in
            let short : min size (manifest.total_size - offset) ≡ 0 = ground (arith, past) in
            rw (opened, free) (good1, sym short, λ k h. absurd (omega (arith, short, h)))
        | inr taken ↦
            let reach = min size (i.size - offset) in
            rw (opened, taken)
              (
                good1,
                omega (arith, length-take reach out, sized, same),
                λ k h.
                    get_or-take 0 reach out k
                    ∙ ground (arith, same, bytes k (omega arith), covered k (omega arith)),
              )
      ]
