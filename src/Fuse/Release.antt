-- ===== src/Fuse/Release.antt =====
-- crates/tgcryptfs-fuse/src/fs.rs: `flush_to_transport`, `release` and `setattr`. The upload is a
-- parameter, and so are the random id of a block and the key epoch.
pub mod Readable
use tgcryptfs.Crypto.Aead.{Bytes}
use tgcryptfs.Block.Manifest.{BlockPointer, FileManifest}
use tgcryptfs.Cache.{put}
use tgcryptfs.Fuse.BlockRows.{BlockRecord, pos}
use tgcryptfs.Fuse.Inode.{Inode, FileAttr, inode_to_attr}
use tgcryptfs.Fuse.Store.{Env, Session, StoreError, decimal, get_inode, update_inode}
use tgcryptfs.Fuse.Handles.{FileHandle, HandleTable, get_handle, close_handle}
use tgcryptfs.Fuse.Blocks.{insert_record, find_by_content_hash, increment_ref}
use tgcryptfs.Fuse.Requests.{Errno, eio, existing, or_eio, change_inode}
use tgcryptfs.Fuse.Files.{Outside, State, store_cached}
use tgcryptfs.Common.{
  ℕ, ◌+◌, false, not, ◌&&◌, Option, none, some, [], ◌∷◌, ◌++◌, if◌then◌else◌, Result, ok, err,
  ◌>>=◌, length, take, is_empty,
}

-- What an upload gives: the message, and the size that the transport reports.
pub record UploadResult : Type 0 where
  pub message_id : ℕ
  pub size : ℕ

pub record Uploads (o : Outside) : Type 0 where
  pub upload : Bytes → Bytes → o.Remote → o.Remote × Option UploadResult
  pub random_rid : ℕ → Bytes
  pub current_epoch : ℕ

-- format!("block_{ino}_{}", hex::encode(&content_hash_bytes[..8]))
abbrev pub block_name : (Bytes → Bytes) → ℕ → Bytes → Bytes
block_name hex_encode ino content_hash =
    b'b'
    ∷ b'l'
    ∷ b'o'
    ∷ b'c'
    ∷ b'k'
    ∷ b'_'
    ∷ (decimal ino ++ (b'_' ∷ hex_encode (take 8 content_hash)))

-- The manifest of a file that is one block.
unfoldable pub pointer_to : BlockRecord → ℕ → BlockPointer
pointer_to block len = record {
  rid = block.rid;
  message_id = block.message_id;
  file_offset = 0;
  length = len;
  block_data_offset = 0;
  encrypted_size = block.encrypted_size;
  compressed = block.compressed;
  content_hash = block.content_hash;
  epoch = block.epoch;
}

unfoldable pub one_block : ℕ → Bytes → BlockRecord → ℕ → FileManifest
unfolding pointer_to
one_block ino file_hash block len = record {
  inode = ino;
  version = 1;
  total_size = len;
  file_hash = file_hash;
  blocks = pointer_to block len ∷ [];
}

module _ (o : Outside) (u : Uploads o) where
  -- After an upload that works.
  unfoldable pub record_upload :
      Bytes → Bytes → UploadResult → State o → State o × Option BlockRecord
  record_upload contents content_hash uploaded m =
      let block : BlockRecord = record {
        rid = u.random_rid m.session.drawn;
        content_hash = content_hash;
        message_id = uploaded.message_id;
        encrypted_size = uploaded.size;
        epoch = u.current_epoch;
        ref_count = pos 1;
        compressed = false;
      } in
      let drawn = record m { session = record m.session { drawn = m.session.drawn + 1 } } in
      let inserted = insert_record o.env block drawn.session in
      let after = record drawn { session = inserted.0 } in
      elim inserted.1 [
        | err _ ↦ (after, none)
        | ok _ ↦ (store_cached o block.rid contents after, some block)
      ]

  -- What has the same content is referred to once more; what the store answers to that is not
  -- looked at, nor an error of the search.
  unfoldable pub flush_to_transport : ℕ → Bytes → State o → State o × Option BlockRecord
  flush_to_transport ino contents m = elim m.remote [
    | none ↦ (m, none)
    | some r ↦
        let content_hash = o.env.hash contents in
        let sent = u.upload contents (block_name o.hex_encode ino content_hash) r in
        let after = record m { remote = some sent.0 } in
        let upload_new : State o × Option BlockRecord = elim sent.1 [
          | none ↦ (after, none)
          | some uploaded ↦ record_upload contents content_hash uploaded after
        ] in
        elim (find_by_content_hash o.env content_hash m.session) [
          | err _ ↦ upload_new
          | ok none ↦ upload_new
          | ok (some found) ↦
              (record m { session = (increment_ref o.env found.rid m.session).0 }, some found)
        ]
  ]

  -- `handle.dirty && !handle.write_buffer.is_empty() && self.transport.is_some()`, where a transport
  -- comes with a runtime.
  abbrev pub to_flush : ℕ → State o → Option Bytes
  to_flush fh m = elim (get_handle fh m.handles) [
    | none ↦ none
    | some h ↦ if h.dirty && not (is_empty h.write_buffer) then some h.write_buffer else none
  ]

  -- The inode gets the manifest and the size of what was flushed.
  abbrev pub flushed_inode : ℕ → Bytes → BlockRecord → Inode → Inode
  flushed_inode ino contents block i = record i {
    manifest = some (one_block ino (o.env.hash contents) block (length contents));
    size = length contents;
  }

  unfoldable pub flush_handle : ℕ → ℕ → State o → State o
  flush_handle ino fh m = elim (to_flush fh m) [
    | none ↦ m
    | some contents ↦
        let flushed = flush_to_transport ino contents m in
        elim flushed.1 [
          | none ↦ flushed.0
          | some block ↦ record flushed.0 {
            session = change_inode o.env ino (flushed_inode ino contents block) flushed.0.session;
          }
        ]
  ]

  unfoldable pub release : ℕ → ℕ → State o → State o
  release ino fh m =
      let flushed = flush_handle ino fh m in
      record flushed { handles = (close_handle fh flushed.handles).0 }

abbrev pub or_keep : {A : Type 0} → Option A → A → A
or_keep none a = a
or_keep (some b) a = b

-- A time that is given, in nanoseconds, is resolved before the call.
unfoldable pub changed :
    ℕ → Option ℕ → Option ℕ → Option ℕ → Option ℕ → Option ℕ → Option ℕ → Inode → Inode
changed now mode uid gid size atime mtime i = record i {
  mode = or_keep mode i.mode;
  uid = or_keep uid i.uid;
  gid = or_keep gid i.gid;
  size = or_keep size i.size;
  timestamps = record i.timestamps {
    atime_ns = or_keep atime i.timestamps.atime_ns;
    mtime_ns = or_keep mtime i.timestamps.mtime_ns;
    ctime_ns = now;
  };
}

unfoldable pub setattr :
    (env : Env)
    → ℕ
    → ℕ
    → Option ℕ
    → Option ℕ
    → Option ℕ
    → Option ℕ
    → Option ℕ
    → Option ℕ
    → Session env.Conn
    → Session env.Conn × Result Errno FileAttr
setattr env now ino mode uid gid size atime mtime fs = elim (existing (get_inode env ino fs)) [
  | err e ↦ (fs, err e)
  | ok i ↦
      let i' = changed now mode uid gid size atime mtime i in
      let updated = update_inode env i' fs in
      (updated.0, or_eio updated.1 >>= λ _. ok (inode_to_attr i'))
]
