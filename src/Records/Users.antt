-- ===== src/Records/Users.antt =====
-- crates/tgcryptfs-store/src/user_store.rs: the users by their id, with a column that says whether
-- the user is active. The record holds the same flag a second time.
use tgcryptfs.Crypto.Aead.{Bytes}
use tgcryptfs.Common.Dict.{list_eq, nat_eq}
use tgcryptfs.Fuse.Store.{Session, StoreError}
use tgcryptfs.Fuse.BlockRows.{ℤ}
use tgcryptfs.Records.{Store, Changed, save, fetch, fetch_where, run_statement, set_columns}
use tgcryptfs.Common.{Bool, false, Option, List, ◌∷◌, Result}

pub record UserRecord : Type 0 where
  pub user_id : Bytes
  pub telegram_user_id : ℤ
  pub display_name : Bytes
  pub access_level : Bytes
  pub mlkem_public_key : Bytes
  pub wrapped_keys : Bytes
  pub granted_at : ℤ
  pub last_validated : Option ℤ
  pub active : Bool

-- format!("user:{user_id}")
abbrev pub user_aad : Bytes → Bytes
user_aad user_id = b'u' ∷ b's' ∷ b'e' ∷ b'r' ∷ b':' ∷ user_id

abbrev pub UserStore : Type 1
UserStore = Store Bytes Bool UserRecord

module _ (store : UserStore) where
  abbrev pub insert_user : UserRecord → Session store.Conn → Changed store user_aad
  insert_user user s = save store user_aad user.user_id user.active user s

  abbrev pub get_user : Bytes → Session store.Conn → Result StoreError (Option UserRecord)
  get_user user_id s = fetch store user_aad user_id s

  -- WHERE active = 1
  abbrev pub list_active : Session store.Conn → Result StoreError (List UserRecord)
  list_active s = fetch_where store user_aad (λ active. active) s

  abbrev pub deactivate : Bytes → Session store.Conn → Changed store user_aad
  deactivate user_id s = run_statement store user_aad (set_columns user_id (λ _. false)) s
