-- ===== src/Tests/Releases.antt =====
-- A handle that is released over an upload that works, with an encoding that has the manifest of
-- one uncompressed block without hashes.
use tgcryptfs.Common.Writes.{all_written}
use tgcryptfs.Crypto.Aead.{Bytes, encrypt, decrypt}
use tgcryptfs.Common.Dict.{list_eq, nat_eq}
use tgcryptfs.Tests.Databases.{toy_env, ToyConn, empty_session}
use tgcryptfs.Fuse.Database.{select, by_ino, selects, effect, conflicts}
use tgcryptfs.Fuse.BlockRows.{BlockRecord, pos, block_effect}
use tgcryptfs.Fuse.Blocks.{ask, find_by_content_hash, insert_record}
use tgcryptfs.Fuse.Inode.{Inode, new_file}
use tgcryptfs.Fuse.Store.{
  Env, Session, run, insert_inode, update_inode, get_inode, first_inode, sealed_inode, opened_inode,
  inode_aad,
}
use tgcryptfs.Fuse.Handles.{FileHandle, get_handle, read_at}
use tgcryptfs.Fuse.Files.{Outside, State, fetch_block, store_cached, download_block, read_inode}
use tgcryptfs.Fuse.Release.{
  Uploads, pointer_to, one_block, flushed_inode, release, flush_to_transport, record_upload,
}
use tgcryptfs.Tests.FileCodec.{serialize_file, deserialize_file, deserializes_file}
use tgcryptfs.Fuse.Release.Readable.{read_inode-flushed_inode, release-get_inode}
use tgcryptfs.Common.{ℕ, ◌≡◌, refl, true, false, none, some, [], ◌∷◌, arith, ok, length}

abbrev text : Bytes
text = 10 ∷ 20 ∷ 30 ∷ []

abbrev file_env : Env
file_env = record toy_env {
  hash = λ bytes. [];
  serialize = serialize_file;
  deserialize = deserialize_file;
  deserializes = deserializes_file;
}

abbrev outside : Outside
outside = record {
  env = file_env;
  hex_encode = λ bytes. bytes;
  read_works = λ turn. true;
  write_result = λ turn. all_written;
  Remote = Bytes;
  fetch = λ message_id sent. (sent, some sent);
}

-- The transport has what was sent last.
abbrev uploads : Uploads outside
uploads = record {
  upload =
      λ contents name sent. (contents, some (record { message_id = 1; size = length contents }));
  random_rid = λ n. [];
  current_epoch = 0;
}

abbrev sent_block : BlockRecord
sent_block = record {
  rid = [];
  content_hash = [];
  message_id = 1;
  encrypted_size = 3;
  epoch = 0;
  ref_count = pos 1;
  compressed = false;
}

abbrev file : Inode
file = record (new_file 6 1 [] 420 7 8 2) { manifest = none }

abbrev handle : FileHandle
handle = record { fh = 1; ino = 2; flags = 0; write_buffer = text; dirty = true }

abbrev mount : State outside
mount = record {
  session = (insert_inode file_env file (empty_session [])).0;
  handles = record { next_fh = 2; handles = (1, handle) ∷ [] };
  cache = none;
  remote = some [];
  turn = 0;
}

-- No cache, and a transport that has the text.
abbrev Sent : State outside → Type 0
Sent m = (m.cache ≡ none) × (m.remote ≡ some text)

text_downloads :
    (message_id : ℕ) (rid : Bytes) (m : State outside)
    → Sent m
    → Sent (download_block outside message_id rid m).0
      × ((download_block outside message_id rid m).1 ≡ some text)
unfolding download_block fetch_block store_cached
text_downloads message_id rid m (uncached, there) =
    rw (uncached, there, download_block, fetch_block, store_cached, uncached)
      ((uncached, refl), refl)

abbrev after_flush : State outside
after_flush = (flush_to_transport outside uploads 2 text mount).0

sends : (flush_to_transport outside uploads 2 text mount).1 ≡ some sent_block
unfolding flush_to_transport find_by_content_hash ask insert_inode sealed_inode record_upload
    insert_record run effect block_effect encrypt conflicts
sends = refl

read_inode-flushed_inode_example :
    (read_inode outside 1 2 (flushed_inode outside uploads 2 text sent_block file) after_flush).1
    ≡ read_at 1 2 text
unfolding flush_to_transport find_by_content_hash ask insert_inode sealed_inode record_upload
    insert_record run effect block_effect pointer_to store_cached encrypt conflicts
read_inode-flushed_inode_example =
    read_inode-flushed_inode outside uploads Sent 2 1 2 text sent_block file after_flush
      (omega arith) (omega arith)
      (λ m good.
        let (after, got) = text_downloads 1 [] m good in
        (after, text, got, (refl, λ k h. ground arith)))
      (refl, refl)

abbrev stored : Inode
stored = flushed_inode outside uploads 2 text sent_block file

abbrev updated : Session ToyConn
updated = (update_inode file_env stored after_flush.session).0

release-get_inode_example :
    (get_inode file_env 2 (release outside uploads 2 1 mount).session ≡ ok (some stored))
    × (get_handle 1 (release outside uploads 2 1 mount).handles ≡ none)
unfolding flush_to_transport find_by_content_hash ask insert_inode update_inode get_inode
    first_inode sealed_inode opened_inode inode_aad encrypt decrypt record_upload insert_record run
    effect block_effect conflicts selects get_handle store_cached one_block
release-get_inode_example =
    release-get_inode outside uploads 2 1 mount handle sent_block file
      (select (by_ino 2) updated.conn.0.rows) refl refl refl refl refl refl refl refl
