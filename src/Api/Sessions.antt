-- ===== src/Api/Sessions.antt =====
-- crates/tgcryptfs-api/src/service/session.rs: the open sessions of volumes. `open` holds the lock
-- of the map for its check and again for its insertion, and not between them: these are two steps,
-- with what the opening of the volume and of its database gives as an argument. A session here has
-- the fields that the manager reads.
use tgcryptfs.Crypto.Aead.{Bytes}
use tgcryptfs.Common.Dict.{Dict, lookup, insert, remove, contains_key, list_eq, nat_eq}
use tgcryptfs.Api.{ApiError, session_not_open, session_already_open}
use tgcryptfs.Common.{
  ℕ, Bool, false, not, Option, none, some, List, map, if◌then◌else◌, Result, ok, err,
}

-- `task` is the task of the mount.
pub record OpenSession : Type 0 where
  pub volume_id : Bytes
  pub display_name : Bytes
  pub task : Option ℕ
  pub mount_point : Option Bytes

abbrev pub SessionManager : Type 0
SessionManager = Dict Bytes OpenSession

-- `finished` tells of a task whether it has ended.
unfoldable pub is_mounted : (ℕ → Bool) → OpenSession → Bool
is_mounted finished s = elim s.task [ none ↦ false | some t ↦ not (finished t) ]

-- The first block of `open`.
unfoldable pub check_closed : Bytes → SessionManager → Result ApiError (Unit {0})
check_closed volume_id m = if contains_key volume_id m then err session_already_open else ok tt

-- Its last statement.
unfoldable pub register : Bytes → OpenSession → SessionManager → SessionManager
register volume_id s m = insert volume_id s m

-- An `open` that no other call comes between.
unfoldable pub open_session :
    Bytes
    → Result ApiError OpenSession
    → SessionManager
    → SessionManager × Result ApiError OpenSession
open_session volume_id opened m = elim (check_closed volume_id m) [
  | err e ↦ (m, err e)
  | ok _ ↦ elim opened [ err e ↦ (m, err e) | ok s ↦ (register volume_id s m, ok s) ]
]

-- The task that is aborted, where there is one.
unfoldable pub close : Bytes → SessionManager → SessionManager × Result ApiError (Option ℕ)
close volume_id m = elim (lookup volume_id m) [
  | none ↦ (m, err session_not_open)
  | some s ↦ (remove volume_id m, ok s.task)
]

unfoldable pub get_session : Bytes → SessionManager → Result ApiError OpenSession
get_session volume_id m = elim (lookup volume_id m) [ none ↦ err session_not_open | some s ↦ ok s ]

unfoldable pub list_open : SessionManager → List Bytes
list_open m = map (λ (p : Bytes × OpenSession). p.0) m

unfoldable pub is_open : Bytes → SessionManager → Bool
is_open volume_id m = contains_key volume_id m
