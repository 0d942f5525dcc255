-- ===== src/Sharing.antt =====
-- crates/tgcryptfs-sharing/src/access.rs and invite.rs: what a user may do, and invites. The clock
-- and the random id of an invite are arguments. A time is an i64.
pub mod Invites
pub mod Keys
pub mod Database
pub mod Store
pub mod Service
use tgcryptfs.Crypto.Aead.{Bytes}
use tgcryptfs.Fuse.BlockRows.{ℤ, pos, negsuc, is_positive}
use tgcryptfs.Common.{
  ℕ, ◌+◌, ◌%◌, Bool, true, false, not, ◌&&◌, Option, none, ltb, leb, if◌then◌else◌, u32_mod, Result,
  ok, err,
}

pub data AccessLevel : Type 0 where
  read_only read_write admin : AccessLevel

unfoldable pub can_read : AccessLevel → Bool
can_read level = true

unfoldable pub can_write : AccessLevel → Bool
can_write read_only = false
can_write read_write = true
can_write admin = true

unfoldable pub can_manage_users : AccessLevel → Bool
can_manage_users read_only = false
can_manage_users read_write = false
can_manage_users admin = true

pub record ShareRecord : Type 0 where
  pub user_id : Bytes
  pub telegram_user_id : ℤ
  pub display_name : Bytes
  pub access_level : AccessLevel
  pub wrapped_key : Bytes
  pub granted_at : ℤ
  pub active : Bool

-- `expires_at` 0: never; `max_uses` 0: unlimited.
pub record Invite : Type 0 where
  pub invite_id : Bytes
  pub volume_id : Bytes
  pub created_by : Bytes
  pub access_level : AccessLevel
  pub created_at : ℤ
  pub expires_at : ℤ
  pub max_uses : ℕ
  pub use_count : ℕ
  pub revoked : Bool
  pub wrapped_key : Option Bytes

pub data SharingError : Type 0 where
  invalid_invite key_exchange crypto : SharingError

unfoldable pub new_invite : ℤ → Bytes → Bytes → Bytes → AccessLevel → ℤ → ℕ → Invite
new_invite now uuid volume_id created_by access_level expires_at max_uses = record {
  invite_id = uuid;
  volume_id = volume_id;
  created_by = created_by;
  access_level = access_level;
  created_at = now;
  expires_at = expires_at;
  max_uses = max_uses;
  use_count = 0;
  revoked = false;
  wrapped_key = none;
}

-- `>` on i64
unfoldable pub is_after : ℤ → ℤ → Bool
is_after (pos a) (pos b) = ltb b a
is_after (pos a) (negsuc b) = true
is_after (negsuc a) (pos b) = false
is_after (negsuc a) (negsuc b) = ltb a b

unfoldable pub is_valid : ℤ → Invite → Bool
is_valid now i =
    if i.revoked
    then false
    else if ltb 0 i.max_uses && leb i.max_uses i.use_count
    then false
    else if is_positive i.expires_at && is_after now i.expires_at
    then false
    else true

-- The count wraps.
unfoldable pub try_use : ℤ → Invite → Result SharingError Invite
try_use now i =
    if not (is_valid now i)
    then err invalid_invite
    else ok (record i { use_count = (i.use_count + 1) % u32_mod })

abbrev pub revoke : Invite → Invite
revoke i = record i { revoked = true }
