-- ===== src/Fuse/Handles.antt =====
-- crates/tgcryptfs-fuse/src/handle.rs: the table of open files, and `read` from and `write` to the
-- buffer of a handle in fs.rs. The map of handles is behind a lock that each operation takes once.
pub mod Buffers
pub mod Tables
use tgcryptfs.Crypto.Aead.{Bytes}
use tgcryptfs.Common.Dict.{Dict, lookup, insert, remove, list_eq, nat_eq}
use tgcryptfs.Common.{
  ℕ, ◌+◌, ◌-◌, min, Bool, true, false, Option, none, some, List, [], ◌++◌, map, ltb, leb, ◌==◌,
  if◌then◌else◌, add_u64, length, take, drop, replicate, filterb,
}

pub record FileHandle : Type 0 where
  pub fh : ℕ
  pub ino : ℕ
  pub flags : ℕ
  pub write_buffer : Bytes
  pub dirty : Bool

pub record HandleTable : Type 0 where
  pub next_fh : ℕ
  pub handles : Dict ℕ FileHandle

abbrev pub no_handles : HandleTable
no_handles = record { next_fh = 1; handles = [] }

-- `fetch_add` wraps.
unfoldable pub open_handle : ℕ → ℕ → HandleTable → HandleTable × ℕ
open_handle ino flags t =
    let h : FileHandle = record {
      fh = t.next_fh;
      ino = ino;
      flags = flags;
      write_buffer = [];
      dirty = false;
    } in
    (record { next_fh = add_u64 t.next_fh 1; handles = insert t.next_fh h t.handles }, t.next_fh)

unfoldable pub get_handle : ℕ → HandleTable → Option FileHandle
get_handle fh t = lookup fh t.handles

unfoldable pub update_handle : ℕ → (FileHandle → FileHandle) → HandleTable → HandleTable × Bool
update_handle fh f t = elim (lookup fh t.handles) [
  | none ↦ (t, false)
  | some h ↦ (record t { handles = insert fh (f h) t.handles }, true)
]

-- The buffer is overwritten with zeros, and emptied.
unfoldable pub close_handle : ℕ → HandleTable → HandleTable × Option FileHandle
close_handle fh t = elim (lookup fh t.handles) [
  | none ↦ (t, none)
  | some h ↦ (record t { handles = remove fh t.handles }, some (record h { write_buffer = [] }))
]

unfoldable pub handles_for_ino : ℕ → HandleTable → List ℕ
handles_for_ino ino t =
    map (λ (p : ℕ × FileHandle). p.0) (filterb (λ (p : ℕ × FileHandle). p.1.ino == ino) t.handles)

unfoldable pub count : HandleTable → ℕ
count t = length t.handles

-- `resize` to the end of the written bytes if the buffer is shorter.
unfoldable pub extend_to : ℕ → Bytes → Bytes
extend_to end buffer =
    if ltb (length buffer) end then buffer ++ replicate (end - length buffer) 0 else buffer

-- Then `copy_from_slice`.
unfoldable pub write_at : ℕ → Bytes → Bytes → Bytes
write_at offset contents buffer =
    let extended = extend_to (offset + length contents) buffer in
    take offset extended ++ (contents ++ drop (offset + length contents) extended)

-- The closure that `write` gives to `update`.
unfoldable pub write_handle : ℕ → Bytes → FileHandle → FileHandle
write_handle offset contents h = record h {
  write_buffer = write_at offset contents h.write_buffer;
  dirty = true;
}

-- What `read` replies from a buffer that is not empty.
unfoldable pub read_at : ℕ → ℕ → Bytes → Bytes
read_at offset size buffer =
    let end = min (offset + size) (length buffer) in
    if leb (length buffer) offset then [] else drop offset (take end buffer)
