-- ===== src/Records/Policies.antt =====
-- crates/tgcryptfs-store/src/policy_store.rs: the policies by their id. The id is a u32, and the one
-- that a row holds is cut to a u32 when the row is read.
use tgcryptfs.Crypto.Aead.{Bytes}
use tgcryptfs.Common.Dict.{nat_eq}
use tgcryptfs.Fuse.Store.{Session, StoreError, decimal}
use tgcryptfs.Policy.Engine.{MutabilityPolicy}
use tgcryptfs.Records.{Store, Changed, save, fetch, fetch_where, run_statement, delete_rows}
use tgcryptfs.Common.{ℕ, ◌%◌, true, Option, List, ◌∷◌, u32_mod, Result}

-- format!("policy:{policy_id}")
abbrev pub policy_aad : ℕ → Bytes
policy_aad policy_id =
    b'p' ∷ b'o' ∷ b'l' ∷ b'i' ∷ b'c' ∷ b'y' ∷ b':' ∷ decimal (policy_id % u32_mod)

-- The table has no column but the key and the record.
abbrev pub PolicyStore : Type 1
PolicyStore = Store ℕ (Unit {0}) MutabilityPolicy

module _ (store : PolicyStore) where
  abbrev pub insert_policy : MutabilityPolicy → Session store.Conn → Changed store policy_aad
  insert_policy p s = save store policy_aad p.policy_id tt p s

  abbrev pub get_policy : ℕ → Session store.Conn → Result StoreError (Option MutabilityPolicy)
  get_policy policy_id s = fetch store policy_aad policy_id s

  abbrev pub list_all : Session store.Conn → Result StoreError (List MutabilityPolicy)
  list_all s = fetch_where store policy_aad (λ _. true) s

  abbrev pub delete_policy : ℕ → Session store.Conn → Changed store policy_aad
  delete_policy policy_id s = run_statement store policy_aad (delete_rows policy_id) s
