-- ===== src/Sharing/Service.antt =====
-- crates/tgcryptfs-api/src/service/sharing.rs: shares and invites of an open volume. The lock of the
-- connection, which each operation holds to its end, may be poisoned, and `unix_now` may fail.
pub mod Accepted
use tgcryptfs.Crypto.Aead.{Bytes}
use tgcryptfs.Fuse.BlockRows.{ℤ, pos}
use tgcryptfs.Fuse.Store.{Session, StoreError}
use tgcryptfs.Api.{ApiError, storage, invalid_argument, internal}
use tgcryptfs.Sharing.{AccessLevel, ShareRecord, Invite, new_invite}
use tgcryptfs.Sharing.Store.{
  Env, insert_share, list_shares, revoke_share, insert_invite, use_invite,
}
use tgcryptfs.Common.{
  ℕ, Bool, true, Option, none, some, List, [], ◌∷◌, if◌then◌else◌, Result, ok, err, ◌>>=◌,
}

pub record VolumeSession (Conn : Type 0) : Type 0 where
  pub volume_id : Bytes
  pub is_poisoned : Bool
  pub store : Session Conn

abbrev pub or_storage : {A : Type 0} → Result StoreError A → Result ApiError A
or_storage (ok a) = ok a
or_storage (err e) = err storage

-- The share of a user without a wrapped key.
abbrev pub keyless_share : Bytes → AccessLevel → ℤ → ShareRecord
keyless_share user_id access_level now = record {
  user_id = user_id;
  telegram_user_id = pos 0;
  display_name = user_id;
  access_level = access_level;
  wrapped_key = [];
  granted_at = now;
  active = true;
}

module _ (env : Env) where
  abbrev pub Reply : Type 0 → Type 0
  Reply A = VolumeSession env.Conn × Result ApiError A

  abbrev pub stored_as :
      {A : Type 0} → VolumeSession env.Conn → Session env.Conn × Result ApiError A → Reply A
  stored_as v out = (record v { store = out.0 }, out.1)

  unfoldable pub all_volume_shares : VolumeSession env.Conn → Result ApiError (List ShareRecord)
  all_volume_shares v =
      if v.is_poisoned then err internal else or_storage (list_shares env v.volume_id v.store)

  -- The share is stored and answered.
  unfoldable pub grant_share :
      Bytes → ShareRecord → Session env.Conn → Session env.Conn × Result ApiError ShareRecord
  grant_share volume_id share s =
      let stored = insert_share env volume_id share s in
      (stored.0, or_storage stored.1 >>= λ _. ok share)

  unfoldable pub create_share :
      Option ℤ → Bytes → AccessLevel → VolumeSession env.Conn → Reply ShareRecord
  create_share none user_id access_level v = (v, err internal)
  create_share (some now) user_id access_level v =
      if v.is_poisoned
      then (v, err internal)
      else stored_as v (grant_share v.volume_id (keyless_share user_id access_level now) v.store)

  unfoldable pub revoke_volume_share : Bytes → VolumeSession env.Conn → Reply (Unit {0})
  revoke_volume_share user_id v =
      if v.is_poisoned
      then (v, err internal)
      else let out = revoke_share env user_id v.store in stored_as v (out.0, or_storage out.1)

  unfoldable pub create_invite :
      ℤ → Bytes → AccessLevel → ℕ → ℤ → VolumeSession env.Conn → Reply Invite
  create_invite now uuid access_level max_uses expires_at v =
      let i =
        new_invite now uuid v.volume_id (b'a' ∷ b'p' ∷ b'i' ∷ []) access_level expires_at
          max_uses in
      if v.is_poisoned
      then (v, err internal)
      else let out = insert_invite env i v.store in
        stored_as v (out.0, or_storage out.1 >>= λ _. ok i)

  -- After `use_invite`; `clock` is what `unix_now` gives.
  unfoldable pub accept_used :
      Option ℤ
      → Bytes
      → Bytes
      → Session env.Conn × Result StoreError (Option Invite)
      → Session env.Conn × Result ApiError ShareRecord
  accept_used clock user_id volume_id (s, err e) = (s, err storage)
  accept_used clock user_id volume_id (s, ok none) = (s, err invalid_argument)
  accept_used none user_id volume_id (s, ok (some i)) = (s, err internal)
  accept_used (some now) user_id volume_id (s, ok (some i)) =
      grant_share volume_id (keyless_share user_id i.access_level now) s

  unfoldable pub accept_invite :
      ℤ → Option ℤ → Bytes → Bytes → VolumeSession env.Conn → Reply ShareRecord
  accept_invite now clock invite_id user_id v =
      if v.is_poisoned
      then (v, err internal)
      else stored_as v
          (accept_used clock user_id v.volume_id (use_invite env now invite_id v.store))
