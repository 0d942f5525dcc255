-- ===== src/Records/Switches.antt =====
-- crates/tgcryptfs-store/src/deadman_store.rs: the configuration of the dead man's switch of a volume,
-- with two columns that repeat fields of the record.
use tgcryptfs.Crypto.Aead.{Bytes}
use tgcryptfs.Common.Dict.{list_eq, nat_eq}
use tgcryptfs.Fuse.Store.{Session, StoreError}
use tgcryptfs.Fuse.BlockRows.{ℤ}
use tgcryptfs.Records.{Store, Changed, save, fetch, run_statement, set_columns}
use tgcryptfs.Common.{Bool, Option, some, ◌∷◌, Result}

pub record DeadmanRecord : Type 0 where
  pub volume_id : Bytes
  pub armed : Bool
  pub config_data : Bytes
  pub last_check : Option ℤ

pub record SwitchColumns : Type 0 where
  pub armed_flag : Bool
  pub checked_at : Option ℤ

-- format!("deadman:{volume_id}")
abbrev pub deadman_aad : Bytes → Bytes
deadman_aad volume_id = b'd' ∷ b'e' ∷ b'a' ∷ b'd' ∷ b'm' ∷ b'a' ∷ b'n' ∷ b':' ∷ volume_id

abbrev pub DeadmanStore : Type 1
DeadmanStore = Store Bytes SwitchColumns DeadmanRecord

module _ (store : DeadmanStore) where
  abbrev pub upsert : DeadmanRecord → Session store.Conn → Changed store deadman_aad
  upsert r s =
      save store deadman_aad r.volume_id
        (record { armed_flag = r.armed; checked_at = r.last_check }) r s

  abbrev pub get_switch : Bytes → Session store.Conn → Result StoreError (Option DeadmanRecord)
  get_switch volume_id s = fetch store deadman_aad volume_id s

  abbrev pub set_armed : Bytes → Bool → Session store.Conn → Changed store deadman_aad
  set_armed volume_id armed_now s =
      run_statement store deadman_aad
        (set_columns volume_id (λ c. record c { armed_flag = armed_now })) s

  abbrev pub update_last_check : Bytes → ℤ → Session store.Conn → Changed store deadman_aad
  update_last_check volume_id timestamp s =
      run_statement store deadman_aad
        (set_columns volume_id (λ c. record c { checked_at = some timestamp })) s
