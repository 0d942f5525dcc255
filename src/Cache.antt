-- ===== src/Cache.antt =====
-- crates/tgcryptfs-cache/src/block_cache.rs: the encrypted block cache with LRU eviction. The index
-- and the files of the cache directory are one state; a file's path is its `rid_hex`. `hex::encode`
-- and the cipher are parameters; how a disk operation ends, and the nonce, are arguments.
-- The lock regions of one call follow one another, with no other thread between them.
pub mod Eviction
pub mod Invariant
pub mod Spoiled
pub mod Writes
pub mod Reads
use tgcryptfs.Crypto.Aead.{Bytes, Cipher, AeadError, encrypt, decrypt}
use tgcryptfs.Common.Dict.{Dict, lookup, insert, remove, contains_key, list_eq, nat_eq}
use tgcryptfs.Common.Writes.{WriteResult, all_written, not_opened, cut_short}
use tgcryptfs.Common.{
  ℕ, zero, suc, ◌+◌, ◌-◌, ◌*◌, ◌%◌, Bool, true, false, not, ◌&&◌, Option, none, some, [], ◌∷◌, ltb,
  leb, if◌then◌else◌, u64_mod, add_u64, Result, ok, err, length, is_empty, take,
}

pub record CacheConfig : Type 0 where
  pub max_size : ℕ
  pub encrypt_at_rest : Bool

pub record CacheEntry : Type 0 where
  pub rid_hex : Bytes
  pub size : ℕ
  pub access_order : ℕ

pub record CacheInner : Type 0 where
  pub entries : Dict Bytes CacheEntry
  pub current_size : ℕ
  pub access_counter : ℕ
  pub hits : ℕ
  pub misses : ℕ

pub record BlockCache : Type 0 where
  pub config : CacheConfig
  pub cache_key : Bytes
  pub inner : CacheInner
  pub open inner use *
  pub disk : Dict Bytes Bytes

-- `out_of_fuel` is the model's own.
pub data CacheError : Type 0 where
  miss : Bytes → CacheError
  encryption decryption : AeadError → CacheError
  io eviction_failed out_of_fuel : CacheError

pub record CacheStats : Type 0 where
  pub entry_count : ℕ
  pub total_size : ℕ
  pub limit : ℕ
  pub hits : ℕ
  pub misses : ℕ

abbrev pub sub_u64 : ℕ → ℕ → ℕ
sub_u64 a b = (a + u64_mod - b) % u64_mod

unfoldable pub new : CacheConfig → Bytes → BlockCache
new config cache_key = record {
  config = config;
  cache_key = cache_key;
  inner = record { entries = []; current_size = 0; access_counter = 0; hits = 0; misses = 0 };
  disk = [];
}

-- `min_by_key` on `access_order`: the first of the least entries.
unfoldable pub lru_entry : Dict Bytes CacheEntry → Option (Bytes × CacheEntry)
lru_entry [] = none
lru_entry ((k, v) ∷ m) = elim (lru_entry m) [
  | none ↦ some (k, v)
  | some (j, w) ↦ if leb v.access_order w.access_order then some (k, v) else some (j, w)
]

-- `entries.remove(&key)`, with the size and the file of the entry.
unfoldable pub drop_entry : Bytes → BlockCache → BlockCache
drop_entry key c = elim (lookup key c.entries) [
  | none ↦ c
  | some entry ↦ record c {
    inner = record c.inner {
      entries = remove key c.entries;
      current_size = sub_u64 c.current_size entry.size;
    };
    disk = remove entry.rid_hex c.disk;
  }
]

-- The test of the `while`.
abbrev pub must_evict : BlockCache → ℕ → Bool
must_evict c needed_size =
    ltb c.config.max_size (add_u64 c.current_size needed_size) && not (is_empty c.entries)

-- The `while` loop of `evict_if_needed`.
unfoldable pub evict_loop : ℕ → ℕ → BlockCache → Result CacheError BlockCache
evict_loop zero needed_size c = err out_of_fuel
evict_loop (suc fuel) needed_size c = elim (must_evict c needed_size) [
  | true ↦ elim (lru_entry c.entries) [
    | none ↦ err eviction_failed
    | some (key, _) ↦ evict_loop fuel needed_size (drop_entry key c)
  ]
  | false ↦ ok c
]

unfoldable pub evict_if_needed : ℕ → BlockCache → Result CacheError BlockCache
unfolding evict_loop
evict_if_needed needed_size c = evict_loop (suc (length c.entries)) needed_size c

-- b"cache:" and the name
abbrev pub cache_aad : Bytes → Bytes
cache_aad rid_hex = b'c' ∷ b'a' ∷ b'c' ∷ b'h' ∷ b'e' ∷ b':' ∷ rid_hex

abbrev pub map_error : (AeadError → CacheError) → Result AeadError Bytes → Result CacheError Bytes
map_error f (ok bs) = ok bs
map_error f (err e) = err (f e)

-- The update of the index in `put`.
unfoldable pub record_entry : Bytes → ℕ → CacheInner → CacheInner
record_entry rid_hex data_size inner =
    let order = add_u64 inner.access_counter 1 in
    let size_before : ℕ = elim (lookup rid_hex inner.entries) [
      | none ↦ inner.current_size
      | some old ↦ sub_u64 inner.current_size old.size
    ] in
    record inner {
      access_counter = order;
      entries =
          insert rid_hex (record { rid_hex = rid_hex; size = data_size; access_order = order })
            inner.entries;
      current_size = add_u64 size_before data_size;
    }

module _ (cipher : Cipher) where
  -- What `put` writes to disk.
  unfoldable pub data_to_write : BlockCache → Bytes → Bytes → Bytes → Result CacheError Bytes
  data_to_write c nonce rid_hex contents =
      if c.config.encrypt_at_rest
      then map_error encryption (encrypt cipher nonce c.cache_key contents (cache_aad rid_hex))
      else ok contents

  -- What a hit returns: the file, decrypted if the cache encrypts.
  unfoldable pub read_file : Bool → BlockCache → Bytes → Result CacheError Bytes
  read_file read_ok c rid_hex = elim (lookup rid_hex c.disk) [
    | none ↦ err io
    | some raw ↦
        if not read_ok
        then err io
        else if c.config.encrypt_at_rest
        then map_error decryption (decrypt cipher c.cache_key raw (cache_aad rid_hex))
        else ok raw
  ]

module _ (cipher : Cipher) (hex_encode : Bytes → Bytes) where
  -- After an error the state is what the calls before it have left, and the failed write.
  unfoldable pub put :
      WriteResult → Bytes → BlockCache → Bytes → Bytes → BlockCache × Result CacheError (Unit {0})
  put write nonce c rid contents =
      let rid_hex = hex_encode rid in
      elim (data_to_write cipher c nonce rid_hex contents) [
        | err e ↦ (c, err e)
        | ok stored ↦ elim (evict_if_needed (length stored) c) [
          | err e ↦ (c, err e)
          | ok c' ↦ elim write [
            | all_written ↦ (
              record c' {
                inner = record_entry rid_hex (length stored) c'.inner;
                disk = insert rid_hex stored c'.disk;
              },
              ok tt,
            )
            | not_opened ↦ (c', err io)
            | cut_short n ↦ (record c' { disk = insert rid_hex (take n stored) c'.disk }, err io)
          ]
        ]
      ]

  unfoldable pub get : Bool → BlockCache → Bytes → BlockCache × Result CacheError Bytes
  get read_ok c rid =
      let rid_hex = hex_encode rid in
      let order = add_u64 c.access_counter 1 in
      elim (lookup rid_hex c.entries) [
        | none ↦ (
          record c {
            inner = record c.inner { access_counter = order; misses = add_u64 c.misses 1 };
          },
          err (miss rid_hex),
        )
        | some entry ↦ (
          record c {
            inner = record c.inner {
              access_counter = order;
              entries = insert rid_hex (record entry { access_order = order }) c.entries;
              hits = add_u64 c.hits 1;
            };
          },
          read_file cipher read_ok c rid_hex,
        )
      ]

module _ (hex_encode : Bytes → Bytes) where
  unfoldable pub contains : BlockCache → Bytes → Bool
  contains c rid = contains_key (hex_encode rid) c.entries

  unfoldable pub remove_block : BlockCache → Bytes → BlockCache
  unfolding drop_entry
  remove_block c rid = elim (lookup (hex_encode rid) c.entries) [
    | none ↦ c
    | some entry ↦ record c {
      inner = record c.inner {
        entries = remove (hex_encode rid) c.entries;
        current_size = sub_u64 c.current_size entry.size;
      };
      disk = remove (hex_encode rid) c.disk;
    }
  ]

-- The files of the drained entries are removed.
unfoldable pub remove_files : Dict Bytes CacheEntry → Dict Bytes Bytes → Dict Bytes Bytes
remove_files [] disk = disk
remove_files ((rid_hex, _) ∷ m) disk = remove_files m (remove rid_hex disk)

unfoldable pub clear : BlockCache → BlockCache
unfolding remove_files
clear c = record c {
  inner = record c.inner { entries = []; current_size = 0; hits = 0; misses = 0 };
  disk = remove_files c.entries c.disk;
}

unfoldable pub stats : BlockCache → CacheStats
stats c = record {
  entry_count = length c.entries;
  total_size = c.current_size;
  limit = c.config.max_size;
  hits = c.hits;
  misses = c.misses;
}
