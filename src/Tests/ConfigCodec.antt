-- ===== src/Tests/ConfigCodec.antt =====
-- The configuration of a volume as a list of numbers, and back.
use tgcryptfs.Crypto.Aead.{Bytes}
use tgcryptfs.Fuse.BlockRows.{pos, negsuc}
use tgcryptfs.Tests.ShareCodec.{sign, size_of, number, flag, number-sign, number_flag, toy_answered}
use tgcryptfs.Volume.Config.{CompressionAlgorithm, uncompressed, lz4, zstd, VolumeConfig}
use tgcryptfs.Common.{
  ℕ, ◌+◌, ◌≡◌, refl, Option, none, some, [], ◌∷◌, ◌++◌, ◌==◌, if◌then◌else◌, length, take, drop,
  take-append_exact, drop-append_exact,
}

abbrev pub algorithm_number : CompressionAlgorithm → ℕ
algorithm_number uncompressed = 0
algorithm_number lz4 = 1
algorithm_number (zstd level) = 2 + sign level

abbrev pub algorithm_level : CompressionAlgorithm → ℕ
algorithm_level uncompressed = 0
algorithm_level lz4 = 0
algorithm_level (zstd level) = size_of level

abbrev pub number_algorithm : ℕ → ℕ → CompressionAlgorithm
number_algorithm n level =
    if n == 0
    then uncompressed
    else if n == 1
    then lz4
    else if n == 2
    then zstd (pos level)
    else zstd (negsuc level)

number_algorithm-algorithm_number :
    (a : CompressionAlgorithm) → number_algorithm (algorithm_number a) (algorithm_level a) ≡ a
number_algorithm-algorithm_number uncompressed = refl
number_algorithm-algorithm_number lz4 = refl
number_algorithm-algorithm_number (zstd (pos n)) = refl
number_algorithm-algorithm_number (zstd (negsuc n)) = refl

abbrev pub hash_part : Option Bytes → Bytes
hash_part none = []
hash_part (some hash) = 1 ∷ hash

abbrev pub part_hash : Bytes → Option Bytes
part_hash [] = none
part_hash (_ ∷ hash) = some hash

part_hash-hash_part : (h : Option Bytes) → part_hash (hash_part h) ≡ h
part_hash-hash_part none = refl
part_hash-hash_part (some hash) = refl

abbrev pub texts : VolumeConfig → Bytes
texts c =
    c.volume_id
    ++ (c.display_name ++ (c.group_name ++ (c.salt ++ hash_part c.password_verification_hash)))

abbrev pub to_json : VolumeConfig → Bytes
to_json c =
    sign c.telegram_group_id
    ∷ size_of c.telegram_group_id
    ∷ c.current_epoch
    ∷ c.kdf_params.memory_kib
    ∷ c.kdf_params.iterations
    ∷ c.kdf_params.parallelism
    ∷ c.kdf_params.output_len
    ∷ c.block_config.min_block_size
    ∷ c.block_config.max_block_size
    ∷ c.block_config.target_block_size
    ∷ algorithm_number c.block_config.compression
    ∷ algorithm_level c.block_config.compression
    ∷ c.default_policy_id
    ∷ flag c.cache_config.enabled
    ∷ c.cache_config.max_size
    ∷ flag c.cache_config.metadata_cache
    ∷ c.cache_config.prefetch_depth
    ∷ sign c.created_at
    ∷ size_of c.created_at
    ∷ length c.volume_id
    ∷ length c.display_name
    ∷ length c.group_name
    ∷ length c.salt
    ∷ texts c

abbrev pub from_json : Bytes → Option VolumeConfig
from_json
      (g ∷ h ∷ epoch ∷ memory ∷ its ∷ par ∷ out ∷ lo ∷ hi ∷ target ∷ al ∷ level ∷ policy ∷ on ∷ room
        ∷ metas ∷ depth ∷ t ∷ u ∷ i ∷ j ∷ k ∷ l ∷ rest) =
    some (record {
      volume_id = take i rest;
      display_name = take j (drop i rest);
      group_name = take k (drop j (drop i rest));
      telegram_group_id = number g h;
      current_epoch = epoch;
      salt = take l (drop k (drop j (drop i rest)));
      kdf_params = record {
        memory_kib = memory;
        iterations = its;
        parallelism = par;
        output_len = out;
      };
      block_config = record {
        min_block_size = lo;
        max_block_size = hi;
        target_block_size = target;
        compression = number_algorithm al level;
      };
      default_policy_id = policy;
      cache_config = record {
        enabled = on == 1;
        max_size = room;
        metadata_cache = metas == 1;
        prefetch_depth = depth;
      };
      created_at = number t u;
      password_verification_hash = part_hash (drop l (drop k (drop j (drop i rest))));
    })
from_json _ = none

dropped : (xs ys : Bytes) → drop (length xs) (xs ++ ys) ≡ ys
dropped xs ys = drop-append_exact (length xs) xs ys refl

taken : (xs ys : Bytes) → take (length xs) (xs ++ ys) ≡ xs
taken xs ys = take-append_exact (length xs) xs ys refl

pub reads_back :
    (c : VolumeConfig) (json : Bytes) → some (to_json c) ≡ some json → from_json json ≡ some c
reads_back c json h =
    let hash = hash_part c.password_verification_hash in
    rw (toy_answered (to_json c) json h) (
      rw
        (
          dropped c.volume_id (c.display_name ++ (c.group_name ++ (c.salt ++ hash))),
          taken c.volume_id (c.display_name ++ (c.group_name ++ (c.salt ++ hash))),
          dropped c.display_name (c.group_name ++ (c.salt ++ hash)),
          taken c.display_name (c.group_name ++ (c.salt ++ hash)),
          dropped c.group_name (c.salt ++ hash),
          taken c.group_name (c.salt ++ hash),
          dropped c.salt hash,
          taken c.salt hash,
          part_hash-hash_part c.password_verification_hash,
          number-sign c.telegram_group_id,
          number-sign c.created_at,
          number_algorithm-algorithm_number c.block_config.compression,
          number_flag c.cache_config.enabled,
          number_flag c.cache_config.metadata_cache,
        )
        refl)
