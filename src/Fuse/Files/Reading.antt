-- ===== src/Fuse/Files/Reading.antt =====
-- What `read` copies out of the blocks of a file.
use mathlib.Core.Path.{subst}
use tgcryptfs.Crypto.Aead.{Bytes}
use tgcryptfs.Block.Manifest.{BlockPointer, block_end}
use tgcryptfs.Fuse.Handles.Buffers.{splice_lem, get_or-write_at, length-write_at}
use tgcryptfs.Fuse.Files.{copy_block}
use tgcryptfs.Common.{
  ℕ, ◌+◌, ◌-◌, ◌≤◌, ◌<◌, min, max, ◌≡◌, refl, ◌∙◌, inl, inr, Bool, true, ◌&&◌, ◌++◌, arith, ltb,
  leb, if◌then◌else◌, Bool-cases, add_u64, length, take, drop, get_or, length-take, length-drop,
  get_or-take, get_or-drop,
}

-- A part of length `n`, put into a buffer that it fits.
put_part :
    (place n : ℕ) (part buffer : Bytes)
    → length part ≡ n
    → place + n ≤ length buffer
    → (length (take place buffer ++ (part ++ drop (place + n) buffer)) ≡ length buffer)
      × ((i : ℕ)
          → get_or (take place buffer ++ (part ++ drop (place + n) buffer)) i 0 ≡ (
              if leb place i && ltb i (place + n)
              then get_or part (i - place) 0
              else get_or buffer i 0))
put_part place n part buffer e =
    subst
      (λ k.
        place + k ≤ length buffer
        → (length (take place buffer ++ (part ++ drop (place + k) buffer)) ≡ length buffer)
          × ((i : ℕ)
              → get_or (take place buffer ++ (part ++ drop (place + k) buffer)) i 0 ≡ (
                  if leb place i && ltb i (place + k)
                  then get_or part (i - place) 0
                  else get_or buffer i 0)))
      e
      (λ h. (
        rw (splice_lem place part buffer h) (omega (arith, length-write_at place part buffer)),
        λ i. rw (splice_lem place part buffer h) (get_or-write_at place part buffer i),
      ))

module _ (read_offset read_len : ℕ) (bp : BlockPointer) (contents result_buf : Bytes) where
  abbrev read_start : ℕ
  read_start = max read_offset bp.file_offset

  abbrev read_end : ℕ
  read_end = min (read_offset + read_len) (bp.file_offset + bp.length)

  abbrev part : Bytes
  part = take (read_end - read_start) (drop (read_start - bp.file_offset) contents)

  -- A block with all its bytes is copied to where the range wants it.
  copy_block_lem :
      add_u64 read_offset read_len ≡ read_offset + read_len
      → block_end bp ≡ bp.file_offset + bp.length
      → length contents ≡ bp.length
      → length result_buf ≡ read_len
      → copy_block read_offset read_len bp contents result_buf ≡ (
          if ltb read_start read_end
          then take (read_start - read_offset) result_buf
            ++ (part ++ drop (read_start - read_offset + (read_end - read_start)) result_buf)
          else result_buf)
  unfolding copy_block
  copy_block_lem e f g h = elim (Bool-cases (ltb read_start read_end)) [
    | inr apart ↦ rw (f, e, apart, copy_block) refl
    | inl meets ↦
        let fits : leb (read_start - bp.file_offset + (read_end - read_start)) (length contents)
            ≡ true =
          ground arith in
        let place : leb (read_start - read_offset + (read_end - read_start)) (length result_buf)
            ≡ true =
          ground arith in
        rw (f, e, meets, fits, place, copy_block) refl
  ]

-- The block's bytes are those of the file whose byte at each place `byte` gives.
abbrev pub Holds : (ℕ → ℕ) → BlockPointer → Bytes → Type 0
Holds byte bp contents =
    (length contents ≡ bp.length)
    × ((k : ℕ) → k < bp.length → get_or contents k 0 ≡ byte (bp.file_offset + k))

abbrev here : BlockPointer → ℕ → Bool
here bp p = leb bp.file_offset p && ltb p (bp.file_offset + bp.length)

module _ (byte : ℕ → ℕ) (read_offset read_len : ℕ) (bp : BlockPointer)
    (contents result_buf : Bytes) where
  pub copy_block-byte :
      add_u64 read_offset read_len ≡ read_offset + read_len
      → block_end bp ≡ bp.file_offset + bp.length
      → Holds byte bp contents
      → length result_buf ≡ read_len
      → (length (copy_block read_offset read_len bp contents result_buf) ≡ read_len)
        × ((i : ℕ)
            → i < read_len
            → get_or (copy_block read_offset read_len bp contents result_buf) i 0 ≡ (
                if here bp (read_offset + i)
                then byte (read_offset + i)
                else get_or result_buf i 0))
  copy_block-byte e f g h =
      let start = read_start read_offset read_len bp contents result_buf in
      let end = read_end read_offset read_len bp contents result_buf in
      let copied = part read_offset read_len bp contents result_buf in
      let opened = copy_block_lem read_offset read_len bp contents result_buf e f g.0 h in
      elim (Bool-cases (ltb start end)) [
        | inr apart ↦ rw (opened, apart) (h, λ i lt. ground arith)
        | inl meets ↦
            let tail = drop (start - bp.file_offset) contents in
            let full : length copied ≡ end - start = ground (
              arith,
              length-take (end - start) tail,
              length-drop (start - bp.file_offset) contents,
            ) in
            let (size, bytes) =
              put_part (start - read_offset) (end - start) copied result_buf full (ground arith) in
            rw (opened, meets)
              (
                size ∙ h,
                λ i lt.
                    bytes i
                    ∙ ground (
                      arith,
                      get_or-take 0 (end - start) tail (i - (start - read_offset)),
                      get_or-drop 0 (start - bp.file_offset) contents (i - (start - read_offset)),
                      g.1 (start - bp.file_offset + (i - (start - read_offset))),
                    ),
              )
      ]
