-- ===== src/Sharing/Store/Revoked.antt =====
-- What the store answers of a share that was revoked.
use tgcryptfs.Common.Dict.{list_eq, nat_eq}
