-- ===== src/Fuse/Handles/Buffers.antt =====
-- The buffer of a handle under reads and writes.
use tgcryptfs.Crypto.Aead.{Bytes}
use tgcryptfs.Fuse.Handles.{extend_to, write_at, read_at}
use tgcryptfs.Common.{
  ◌≤◌, sym, ℕ, ◌+◌, ◌-◌, ◌<◌, min, max, ◌≡◌, refl, ◌∙◌, inl, inr, true, false, ◌&&◌, ◌++◌, arith,
  ltb, leb, if◌then◌else◌, ltb→lt, Bool-cases, length, take, drop, get_or, replicate, length-append,
  length-take, length-drop, get_or-append, get_or-take, get_or-drop, get_or-replicate,
  get_or-beyond, length-replicate,
}

length-extend_to :
    (end : ℕ) (buffer : Bytes) → length (extend_to end buffer) ≡ max end (length buffer)
unfolding extend_to
length-extend_to end buffer = elim (Bool-cases (ltb (length buffer) end)) [
  | inl e ↦ rw e (
      omega (
        arith,
        length-append buffer (replicate (end - length buffer) 0),
        length-replicate {A = ℕ} 0 (end - length buffer),
        ltb→lt (length buffer) end e,
      ))
  | inr e ↦ ground arith
]

-- Zeros fill the gap.
get_or-extend_to :
    (end : ℕ) (buffer : Bytes) (i : ℕ) → get_or (extend_to end buffer) i 0 ≡ get_or buffer i 0
unfolding extend_to
get_or-extend_to end buffer i = elim (Bool-cases (ltb (length buffer) end)) [
  | inl e ↦
      rw
        (
          e,
          get_or-append 0 buffer (replicate (end - length buffer) 0) i,
          get_or-replicate {A = ℕ} 0 (end - length buffer) (i - length buffer),
        )
        (ground (arith, get_or-beyond 0 buffer i))
  | inr e ↦ ground arith
]

write_at_lem :
    (offset : ℕ) (contents buffer : Bytes)
    → write_at offset contents buffer
      ≡ take offset (extend_to (offset + length contents) buffer)
        ++ (contents
            ++ drop (offset + length contents) (extend_to (offset + length contents) buffer))
unfolding write_at
write_at_lem offset contents buffer = λ i. write_at offset contents buffer

-- A write makes the buffer reach to the end of the written bytes, and no shorter.
pub length-write_at :
    (offset : ℕ) (contents buffer : Bytes)
    → length (write_at offset contents buffer) ≡ max (offset + length contents) (length buffer)
unfolding write_at
length-write_at offset contents buffer =
    let end = offset + length contents in
    let whole = extend_to end buffer in
    rw (write_at_lem offset contents buffer) (
      omega (
        arith,
        length-append (take offset whole) (contents ++ drop end whole),
        length-append contents (drop end whole),
        length-take offset whole,
        length-drop end whole,
        length-extend_to end buffer,
      ))

-- After a write of `contents` at `offset`, the byte at an index is that of `contents` within the
-- written part, and elsewhere the byte that stood there, where what lies behind the end of the
-- buffer counts as zero.
pub get_or-write_at :
    (offset : ℕ) (contents buffer : Bytes) (i : ℕ)
    → get_or (write_at offset contents buffer) i 0 ≡ (
        if leb offset i && ltb i (offset + length contents)
        then get_or contents (i - offset) 0
        else get_or buffer i 0)
unfolding write_at
get_or-write_at offset contents buffer i =
    let end = offset + length contents in
    let whole = extend_to end buffer in
    let reach = length-extend_to end buffer in
    let first : length (take offset whole) ≡ offset =
      omega (arith, length-take offset whole, reach) in
    let before : ltb i offset ≡ true
        → get_or (write_at offset contents buffer) i 0 ≡ get_or buffer i 0 =
      λ h.
        rw
          (
            write_at_lem offset contents buffer,
            get_or-append 0 (take offset whole) (contents ++ drop end whole) i,
            first,
            h,
            get_or-take 0 offset whole i,
            h,
          )
          (get_or-extend_to end buffer i) in
    let after : ltb i offset ≡ false
        → get_or (write_at offset contents buffer) i 0 ≡ (
            if ltb (i - offset) (length contents)
            then get_or contents (i - offset) 0
            else get_or whole (end + (i - offset - length contents)) 0) =
      λ h.
        rw
          (
            write_at_lem offset contents buffer,
            get_or-append 0 (take offset whole) (contents ++ drop end whole) i,
            first,
            h,
            get_or-append 0 contents (drop end whole) (i - offset),
            get_or-drop 0 end whole (i - offset - length contents),
          )
          refl in
    elim (Bool-cases (ltb i offset)) [
      | inl h ↦ before h ∙ ground arith
      | inr h ↦ elim (Bool-cases (ltb (i - offset) (length contents))) [
        | inl g ↦ after h ∙ ground arith
        | inr g ↦
            let there : end + (i - offset - length contents) ≡ i = ground arith in
            after h ∙ rw (g, there) (get_or-extend_to end buffer i ∙ ground arith)
      ]
    ]

-- A read gives the bytes of the buffer from `offset` on: at most `size`, and as many as there are.
pub length-read_at :
    (offset size : ℕ) (buffer : Bytes)
    → length (read_at offset size buffer) ≡ min size (length buffer - offset)
unfolding read_at
length-read_at offset size buffer =
    let end = min (offset + size) (length buffer) in
    ground (arith, length-drop offset (take end buffer), length-take end buffer)

pub get_or-read_at :
    (offset size : ℕ) (buffer : Bytes) (i : ℕ)
    → i < size
    → get_or (read_at offset size buffer) i 0 ≡ get_or buffer (offset + i) 0
unfolding read_at
get_or-read_at offset size buffer i h =
    let end = min (offset + size) (length buffer) in
    ground (
      arith,
      get_or-drop 0 offset (take end buffer) i,
      get_or-take 0 end buffer (offset + i),
      get_or-beyond 0 buffer (offset + i),
    )

-- A read after a write gives `size` bytes, or as many as the buffer then has from `offset` on; the
-- byte at each index is the written one where the write went, and elsewhere what stood there, with
-- zero for what lay behind the end of the buffer.
pub read_at-write_at :
    (offset size place : ℕ) (contents buffer : Bytes)
    → (length (read_at offset size (write_at place contents buffer))
        ≡ min size (max (place + length contents) (length buffer) - offset))
      × ((i : ℕ)
          → i < size
          → get_or (read_at offset size (write_at place contents buffer)) i 0 ≡ (
              if leb place (offset + i) && ltb (offset + i) (place + length contents)
              then get_or contents (offset + i - place) 0
              else get_or buffer (offset + i) 0))
read_at-write_at offset size place contents buffer = (
  rw (sym (length-write_at place contents buffer))
      (length-read_at offset size (write_at place contents buffer)),
  λ i h.
      get_or-read_at offset size (write_at place contents buffer) i h
      ∙ get_or-write_at place contents buffer (offset + i),
)

-- To replace a part within a buffer is to write there.
pub splice_lem :
    (place : ℕ) (part buffer : Bytes)
    → place + length part ≤ length buffer
    → take place buffer ++ (part ++ drop (place + length part) buffer) ≡ write_at place part buffer
unfolding write_at extend_to
splice_lem place part buffer h =
    let short : ltb (length buffer) (place + length part) ≡ false = ground arith in
    rw (short, write_at, extend_to) refl
