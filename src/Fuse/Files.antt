-- ===== src/Fuse/Files.antt =====
-- crates/tgcryptfs-fuse/src/fs.rs: `open`, `create`, `read` and `write` of files, and
-- `download_block` through the block cache. The transport is a parameter with its own state; which
-- disk operations of the cache work is a function of the `turn`.
pub mod Reading
pub mod Blocks
use tgcryptfs.Crypto.Aead.{Bytes}
use tgcryptfs.Block.Manifest.{BlockPointer, FileManifest, block_end, blocks_in_range}
use tgcryptfs.Cache.{BlockCache, get, put}
use tgcryptfs.Common.Writes.{WriteResult}
use tgcryptfs.Fuse.Inode.{Inode, FileType, regular_file, directory, symlink, FileAttr}
use tgcryptfs.Fuse.Store.{Env, Session, get_inode, update_inode}
use tgcryptfs.Fuse.Handles.{
  FileHandle, HandleTable, open_handle, get_handle, update_handle, write_handle, read_at,
}
use tgcryptfs.Fuse.Requests.{Errno, eisdir, ebadf, existing, create_inode, change_inode}
use tgcryptfs.Common.{
  ℕ, ◌+◌, ◌-◌, ◌%◌, min, max, Bool, true, false, not, ◌&&◌, Option, none, some, List, [], ◌∷◌, ◌++◌,
  ltb, leb, if◌then◌else◌, u32_mod, add_u64, Result, ok, err, length, take, drop, replicate,
  is_empty,
}

pub record Outside : Type 1 where
  pub env : Env
  pub hex_encode : Bytes → Bytes
  pub read_works : ℕ → Bool
  pub write_result : ℕ → WriteResult
  pub Remote : Type 0
  pub fetch : ℕ → Remote → Remote × Option Bytes

-- `remote` is `none` without a transport or a runtime.
pub record Mount (Conn Remote : Type 0) : Type 0 where
  pub session : Session Conn
  pub handles : HandleTable
  pub cache : Option BlockCache
  pub remote : Option Remote
  pub turn : ℕ

abbrev pub is_regular : FileType → Bool
is_regular regular_file = true
is_regular directory = false
is_regular symlink = false

abbrev pub is_file : Inode → Bool
is_file i = is_regular i.file_type

-- The part of a block that falls into `[read_offset, read_offset + read_len)`, copied into the
-- result at its place.
unfoldable pub copy_block : ℕ → ℕ → BlockPointer → Bytes → Bytes → Bytes
copy_block read_offset read_len bp contents result_buf =
    let block_start = bp.file_offset in
    let read_start = max read_offset block_start in
    let read_end = min (add_u64 read_offset read_len) (block_end bp) in
    let src_off = read_start - block_start in
    let dst_off = read_start - read_offset in
    let copy_len = read_end - read_start in
    if ltb read_start read_end
      && leb (src_off + copy_len) (length contents)
      && leb (dst_off + copy_len) (length result_buf)
    then take dst_off result_buf
      ++ (take copy_len (drop src_off contents) ++ drop (dst_off + copy_len) result_buf)
    else result_buf

module _ (o : Outside) where
  abbrev pub State : Type 0
  State = Mount o.env.Conn o.Remote

  -- `let _ = cache.put(rid, &data)`
  unfoldable pub store_cached : Bytes → Bytes → State → State
  store_cached rid contents m = elim m.cache [
    | none ↦ m
    | some c ↦ record m {
      cache =
          some
            (put o.env.cipher o.hex_encode (o.write_result m.turn) (o.env.nonce m.session.drawn) c
              rid contents).0;
      turn = m.turn + 1;
      session = record m.session { drawn = m.session.drawn + 1 };
    }
  ]

  unfoldable pub fetch_block : ℕ → Bytes → State → State × Option Bytes
  fetch_block message_id rid m = elim m.remote [
    | none ↦ (m, none)
    | some r ↦
        let fetched = o.fetch message_id r in
        let asked = record m { remote = some fetched.0 } in
        elim fetched.1 [
          | none ↦ (asked, none)
          | some contents ↦ (store_cached rid contents asked, some contents)
        ]
  ]

  unfoldable pub download_block : ℕ → Bytes → State → State × Option Bytes
  download_block message_id rid m = elim m.cache [
    | none ↦ fetch_block message_id rid m
    | some c ↦
        let got = get o.env.cipher o.hex_encode (o.read_works m.turn) c rid in
        let tried = record m { cache = some got.0; turn = m.turn + 1 } in
        elim got.1 [
          | ok contents ↦ (tried, some contents)
          | err _ ↦ fetch_block message_id rid tried
        ]
  ]

  -- The loop over the blocks of the range; `none` after a download that fails.
  unfoldable pub read_blocks : ℕ → ℕ → List BlockPointer → State → Bytes → State × Option Bytes
  read_blocks read_offset read_len [] m result_buf = (m, some result_buf)
  read_blocks read_offset read_len (bp ∷ needed) m result_buf =
      let got = download_block bp.message_id bp.rid m in
      elim got.1 [
        | none ↦ (got.0, none)
        | some contents ↦
            read_blocks read_offset read_len needed got.0
              (copy_block read_offset read_len bp contents result_buf)
      ]

  unfoldable pub read_manifest : ℕ → ℕ → Inode → FileManifest → State → State × Bytes
  read_manifest offset size i manifest m =
      let needed = blocks_in_range manifest offset size in
      let copied = read_blocks offset size needed m (replicate size 0) in
      elim copied.1 [
        | none ↦ (copied.0, [])
        | some result_buf ↦
            (copied.0, if is_empty needed then [] else take (min size (i.size - offset)) result_buf)
      ]

  unfoldable pub read_inode : ℕ → ℕ → Inode → State → State × Bytes
  read_inode offset size i m = elim i.manifest [
    | none ↦ (m, [])
    | some manifest ↦
        if is_empty manifest.blocks then (m, []) else read_manifest offset size i manifest m
  ]

  -- The handle's buffer, unless it is empty.
  abbrev pub buffered : ℕ → State → Option Bytes
  buffered fh m = elim (get_handle fh m.handles) [
    | none ↦ none
    | some h ↦ if is_empty h.write_buffer then none else some h.write_buffer
  ]

  unfoldable pub read : ℕ → ℕ → ℕ → ℕ → State → State × Result Errno Bytes
  read ino fh offset size m = elim (existing (get_inode o.env ino m.session)) [
    | err e ↦ (m, err e)
    | ok i ↦ if not (is_file i) then (m, err eisdir) else elim (buffered fh m) [
      | some buffer ↦ (m, ok (read_at offset size buffer))
      | none ↦ let answer = read_inode offset size i m in (answer.0, ok answer.1)
    ]
  ]

  unfoldable pub open_request : ℕ → ℕ → State → State × Result Errno ℕ
  open_request ino flags m = elim (existing (get_inode o.env ino m.session)) [
    | err e ↦ (m, err e)
    | ok _ ↦
        let opened = open_handle ino flags m.handles in
        (record m { handles = opened.0 }, ok opened.1)
  ]

  unfoldable pub create_request :
      ℕ → ℕ → ℕ → ℕ → Option Bytes → ℕ → ℕ → State → State × Result Errno (FileAttr × ℕ)
  create_request uid gid now parent name mode flags m =
      let made = create_inode o.env uid gid now parent name mode m.session in
      let after = record m { session = made.0 } in
      elim made.1 [
        | err e ↦ (after, err e)
        | ok attr ↦
            let opened = open_handle attr.ino flags m.handles in
            (record after { handles = opened.0 }, ok (attr, opened.1))
      ]

  -- The new size in the inode is that of the handle's buffer.
  unfoldable pub write : ℕ → ℕ → ℕ → ℕ → Bytes → State → State × Result Errno ℕ
  write now ino fh offset contents m =
      let updated = update_handle fh (write_handle offset contents) m.handles in
      let resize : FileHandle → Inode → Inode = λ h i. record i {
        size = length h.write_buffer;
        timestamps = record i.timestamps { mtime_ns = now };
      } in
      if updated.1
      then elim (get_handle fh updated.0) [
        | none ↦ (record m { handles = updated.0 }, ok (length contents % u32_mod))
        | some h ↦ (
          record m { handles = updated.0; session = change_inode o.env ino (resize h) m.session },
          ok (length contents % u32_mod),
        )
      ]
      else (m, err ebadf)
