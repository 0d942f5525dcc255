-- ===== src/Api.antt =====
-- crates/tgcryptfs-api/src/error.rs: the errors of the HTTP service's operations.
pub mod Sessions
pub mod Switch
pub mod Volumes
pub mod Auth
use tgcryptfs.Common.{ℕ}

pub data ApiError : Type 0 where
  volume_not_found volume_already_exists volume_is_mounted volume_not_mounted : ApiError
  auth_required telegram crypto storage invalid_argument : ApiError
  session_not_open session_already_open internal io : ApiError

-- The HTTP status.
unfoldable pub status_code : ApiError → ℕ
status_code volume_not_found = 404
status_code volume_already_exists = 409
status_code volume_is_mounted = 409
status_code volume_not_mounted = 400
status_code auth_required = 401
status_code telegram = 502
status_code crypto = 500
status_code storage = 500
status_code session_not_open = 400
status_code session_already_open = 409
status_code invalid_argument = 400
status_code internal = 500
status_code io = 500
