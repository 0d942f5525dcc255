-- ===== src/Records/Volumes.antt =====
-- crates/tgcryptfs-store/src/volume_store.rs: the configuration of a volume, with the times of its
-- creation and of its last change as columns. `now` is the clock's answer in seconds.
use tgcryptfs.Crypto.Aead.{Bytes}
use tgcryptfs.Common.Dict.{list_eq, nat_eq}
use tgcryptfs.Fuse.Store.{Session, StoreError}
use tgcryptfs.Records.{Store, Changed, save, fetch}
use tgcryptfs.Volume.Config.{VolumeConfig}
use tgcryptfs.Common.{ℕ, Option, ◌∷◌, Result}

pub record VolumeTimes : Type 0 where
  pub created_at : ℕ
  pub updated_at : ℕ

-- format!("volume:{volume_id}")
abbrev pub volume_aad : Bytes → Bytes
volume_aad volume_id = b'v' ∷ b'o' ∷ b'l' ∷ b'u' ∷ b'm' ∷ b'e' ∷ b':' ∷ volume_id

abbrev pub VolumeStore : Type 1
VolumeStore = Store Bytes VolumeTimes VolumeConfig

module _ (store : VolumeStore) where
  abbrev pub save_config : ℕ → VolumeConfig → Session store.Conn → Changed store volume_aad
  save_config now config s =
      save store volume_aad config.volume_id (record { created_at = now; updated_at = now }) config
        s

  abbrev pub load_config : Bytes → Session store.Conn → Result StoreError (Option VolumeConfig)
  load_config volume_id s = fetch store volume_aad volume_id s
