-- ===== src/Tests/Volumes.antt =====
-- A volume that is created and opened, with an encoding of its configuration.
use tgcryptfs.Crypto.Aead.{Bytes}
use tgcryptfs.Common.Dict.{list_eq, nat_eq}
use tgcryptfs.Fuse.BlockRows.{pos}
use tgcryptfs.Tests.ShareCodec.{toy_answered}
use tgcryptfs.Volume.{
  decryption, KeyHierarchy, Crates, Disk, derive_root_key, derive_hierarchy,
  compute_verification_hash, derive_keys, prepare, create_volume, check_hash, open_config,
  open_volume, diff_loop, hash_diff,
}
use tgcryptfs.Volume.Config.{VolumeConfig, Draws, new_config}
use tgcryptfs.Tests.ConfigCodec.{to_json, from_json, reads_back}
use tgcryptfs.Volume.Opening.{open_volume-create_volume}
use tgcryptfs.Common.Writes.{all_written}
use tgcryptfs.Common.{
  ℕ, ◌+◌, ◌%◌, ◌≡◌, refl, ap, ◌∙◌, ◌≢◌, true, none, some, [], ◌∷◌, ok, err, length, take, replicate,
  length-replicate,
}

abbrev pub total : Bytes → ℕ
total [] = 0
total (b ∷ bs) = b + total bs

-- A key is made of equal numbers, from the sum of the password and the salt.
abbrev pub crates : Crates
crates = record {
  argon2 = λ password salt params.
      some (replicate params.output_len ((total password + total salt) % 256));
  hkdf = λ salt key info. some (take 1 key);
  blake3 = λ bytes. bytes;
  hex_encode = λ bytes. bytes;
  to_json = λ c. some (to_json c);
  from_json = from_json;
  reads_back = reads_back;
  argon2_size = λ password salt params out h.
      ap length
        (toy_answered (replicate params.output_len ((total password + total salt) % 256)) out h)
      ∙ length-replicate ((total password + total salt) % 256) params.output_len;
}

abbrev pub draws : Draws
draws = record { salt = replicate 32 1; uuid = 6 ∷ []; now = pos 100 }

abbrev password : Bytes
password = 5 ∷ 9 ∷ []

abbrev config : VolumeConfig
config = record (new_config draws (7 ∷ []) (8 ∷ [])) { password_verification_hash = some (46 ∷ []) }

-- The keys under which each derived key is one number.
abbrev pub keys_of : ℕ → KeyHierarchy
keys_of n = record {
  root = replicate 32 n;
  for_data = n ∷ [];
  meta = n ∷ [];
  schema = n ∷ [];
  integrity = n ∷ [];
  wrapping = n ∷ [];
  deadman = n ∷ [];
}

abbrev disk : Disk
disk = (create_volume crates (λ id. id) true all_written draws (7 ∷ [], 8 ∷ []) none password []).0

opens : open_volume crates (λ id. id) true (6 ∷ []) password disk ≡ ok (config, keys_of 46)
unfolding create_volume prepare derive_keys derive_root_key derive_hierarchy
    compute_verification_hash new_config open_volume open_config check_hash hash_diff diff_loop
opens = refl

refuses : open_volume crates (λ id. id) true (6 ∷ []) (5 ∷ []) disk ≡ err decryption
unfolding create_volume prepare derive_keys derive_root_key derive_hierarchy
    compute_verification_hash new_config open_volume open_config check_hash hash_diff diff_loop
refuses = refl

open_volume-create_volume_example :
    (open_volume crates (λ id. id) true config.volume_id password disk ≡ ok (config, keys_of 46))
    × ((other hash' : Bytes) (keys' : KeyHierarchy)
        → derive_keys crates (λ id. id) other config ≡ ok keys'
        → compute_verification_hash crates keys' ≡ ok hash'
        → config.password_verification_hash ≢ some hash'
        → open_volume crates (λ id. id) true config.volume_id other disk ≡ err decryption)
unfolding create_volume prepare derive_keys derive_root_key derive_hierarchy
    compute_verification_hash new_config
open_volume-create_volume_example =
    open_volume-create_volume crates (λ id. id) true all_written draws (7 ∷ [], 8 ∷ []) none
      password [] config (keys_of 46) refl

abbrev near : Bytes
near = 1 ∷ 3 ∷ []
