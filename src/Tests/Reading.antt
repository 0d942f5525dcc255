-- ===== src/Tests/Reading.antt =====
-- A file of two blocks, read without a cache over a transport that has both.
use tgcryptfs.Common.Writes.{all_written}
use tgcryptfs.Crypto.Aead.{Bytes}
use tgcryptfs.Block.Manifest.{
  BlockPointer, FileManifest, validate, check_blocks, check_from, blocks_in_range,
}
use tgcryptfs.Tests.Databases.{toy_env, empty_session}
use tgcryptfs.Fuse.Inode.{Inode, new_file}
use tgcryptfs.Fuse.Handles.{no_handles}
use tgcryptfs.Fuse.Files.{
  Outside, State, copy_block, fetch_block, store_cached, download_block, read_blocks, read_manifest,
}
use tgcryptfs.Fuse.Files.Reading.{Holds}
use tgcryptfs.Fuse.Files.Blocks.{Supplies, read_manifest-bytes}
use tgcryptfs.Common.{
  ℕ, ◌+◌, ◌-◌, ◌<◌, min, ◌≡◌, refl, true, false, none, some, [], ◌∷◌, ◌++◌, arith, ◌==◌,
  if◌then◌else◌, length, get_or, All, get_or-append,
}

abbrev first : Bytes
first = 10 ∷ 20 ∷ 30 ∷ []

abbrev second : Bytes
second = 40 ∷ 50 ∷ []

abbrev stored : ℕ → Bytes
stored message_id = if message_id == 1 then first else second

abbrev outside : Outside
outside = record {
  env = toy_env;
  hex_encode = λ bytes. bytes;
  read_works = λ turn. true;
  write_result = λ turn. all_written;
  Remote = ℕ;
  fetch = λ message_id requests. (requests + 1, some (stored message_id));
}

abbrev pointer : ℕ → ℕ → BlockPointer
pointer message_id file_offset = record {
  rid = [];
  message_id = message_id;
  file_offset = file_offset;
  length = length (stored message_id);
  block_data_offset = 0;
  encrypted_size = length (stored message_id);
  compressed = false;
  content_hash = [];
  epoch = 0;
}

abbrev two_blocks : FileManifest
two_blocks = record {
  inode = 2;
  version = 1;
  total_size = 5;
  file_hash = [];
  blocks = pointer 1 0 ∷ pointer 2 3 ∷ [];
}

abbrev file : Inode
file = record (new_file 5 1 [] 420 0 0 2) { size = 5; manifest = some two_blocks }

abbrev mount : State outside
mount = record {
  session = empty_session [];
  handles = no_handles;
  cache = none;
  remote = some 0;
  turn = 0;
}

reads_across : (read_manifest outside 2 2 file two_blocks mount).1 ≡ 30 ∷ 40 ∷ []
unfolding read_manifest read_blocks download_block fetch_block store_cached copy_block
    blocks_in_range
reads_across = refl

reads_to_end : (read_manifest outside 3 9 file two_blocks mount).1 ≡ 40 ∷ 50 ∷ []
unfolding read_manifest read_blocks download_block fetch_block store_cached copy_block
    blocks_in_range
reads_to_end = refl

-- No cache, and a transport.
abbrev Uncached : State outside → Type 0
Uncached m = (m.cache ≡ none) × ((requests : ℕ) × (m.remote ≡ some requests))

abbrev byte : ℕ → ℕ
byte k = get_or (first ++ second) k 0

downloads :
    (message_id : ℕ) (rid : Bytes) (m : State outside)
    → Uncached m
    → Uncached (download_block outside message_id rid m).0
      × ((download_block outside message_id rid m).1 ≡ some (stored message_id))
unfolding download_block fetch_block store_cached
downloads message_id rid m (uncached, (requests, joined)) =
    rw (uncached, joined, download_block, fetch_block, store_cached, uncached)
      ((uncached, (requests + 1, refl)), refl)

first-Holds : Holds byte (pointer 1 0) first
first-Holds = (refl, λ k h. ground (arith, get_or-append 0 first second (0 + k)))

second-Holds : Holds byte (pointer 2 3) second
second-Holds = (refl, λ k h. ground (arith, get_or-append 0 first second (3 + k)))

both_supplied : All (Supplies outside Uncached byte) two_blocks.blocks
both_supplied = (
  λ m good. let (after, got) = downloads 1 [] m good in (after, first, got, first-Holds),
  (λ m good. let (after, got) = downloads 2 [] m good in (after, second, got, second-Holds), tt),
)

read_manifest-bytes_example :
    Uncached (read_manifest outside 2 2 file two_blocks mount).0
    × (length (read_manifest outside 2 2 file two_blocks mount).1 ≡ min 2 (5 - 2))
    × ((k : ℕ)
        → k < min 2 (5 - 2)
        → get_or (read_manifest outside 2 2 file two_blocks mount).1 k 0 ≡ byte (2 + k))
unfolding validate check_blocks check_from
read_manifest-bytes_example =
    read_manifest-bytes outside Uncached byte 2 2 file two_blocks mount (omega arith)
      (omega arith, (omega arith, tt)) refl refl both_supplied (refl, (0, refl))
