-- ===== src/Volume/Config.antt =====
-- crates/tgcryptfs-core/src/volume/config.rs and the parameters of crypto/keys.rs and
-- block/compress.rs that it holds. What is random is an argument.
use tgcryptfs.Crypto.Aead.{Bytes}
use tgcryptfs.Fuse.BlockRows.{ℤ, pos}
use tgcryptfs.Common.{ℕ, ◌+◌, ◌*◌, ◌%◌, Bool, true, Option, none, u32_mod}

pub record Argon2Params : Type 0 where
  pub memory_kib : ℕ
  pub iterations : ℕ
  pub parallelism : ℕ
  pub output_len : ℕ

pub data CompressionAlgorithm : Type 0 where
  uncompressed lz4 : CompressionAlgorithm
  zstd : ℤ → CompressionAlgorithm

pub record BlockConfig : Type 0 where
  pub min_block_size : ℕ
  pub max_block_size : ℕ
  pub target_block_size : ℕ
  pub compression : CompressionAlgorithm

pub record CacheConfig : Type 0 where
  pub enabled : Bool
  pub max_size : ℕ
  pub metadata_cache : Bool
  pub prefetch_depth : ℕ

pub record VolumeConfig : Type 0 where
  pub volume_id : Bytes
  pub display_name : Bytes
  pub group_name : Bytes
  pub telegram_group_id : ℤ
  pub current_epoch : ℕ
  pub salt : Bytes
  pub kdf_params : Argon2Params
  pub block_config : BlockConfig
  pub default_policy_id : ℕ
  pub cache_config : CacheConfig
  pub created_at : ℤ
  pub password_verification_hash : Option Bytes

abbrev pub default_params : Argon2Params
default_params = record { memory_kib = 262144; iterations = 4; parallelism = 4; output_len = 32 }

abbrev pub default_blocks : BlockConfig
default_blocks = record {
  min_block_size = 4 * 1024;
  max_block_size = 50 * 1024 * 1024;
  target_block_size = 1024 * 1024;
  compression = lz4;
}

abbrev pub default_cache : CacheConfig
default_cache = record {
  enabled = true;
  max_size = 1024 * 1024 * 1024;
  metadata_cache = true;
  prefetch_depth = 4;
}

-- The random salt and id, and the clock.
pub record Draws : Type 0 where
  pub salt : Bytes
  pub uuid : Bytes
  pub now : ℤ

unfoldable pub new_config : Draws → Bytes → Bytes → VolumeConfig
new_config d display_name group_name = record {
  volume_id = d.uuid;
  display_name = display_name;
  group_name = group_name;
  telegram_group_id = pos 0;
  current_epoch = 0;
  salt = d.salt;
  kdf_params = default_params;
  block_config = default_blocks;
  default_policy_id = 0;
  cache_config = default_cache;
  created_at = d.now;
  password_verification_hash = none;
}

-- `increment_epoch` wraps; the new epoch is answered too.
unfoldable pub increment_epoch : VolumeConfig → VolumeConfig × ℕ
increment_epoch c =
    let next = (c.current_epoch + 1) % u32_mod in (record c { current_epoch = next }, next)
