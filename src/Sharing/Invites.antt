-- ===== src/Sharing/Invites.antt =====
-- What uses and a revocation make of an invite.
use tgcryptfs.Fuse.BlockRows.{ℤ}
use tgcryptfs.Sharing.{Invite, is_valid, try_use}
use tgcryptfs.Common.{◌+◌, ◌%◌, ◌<◌, ◌≡◌, false, arith, u32_mod, ok}

-- A use that works finds an invite that is not revoked nor used up, and counts one use.
pub try_use-ok :
    (now : ℤ) (i used : Invite)
    → try_use now i ≡ ok used
    → (i.revoked ≡ false)
      × ((0 < i.max_uses → i.use_count < i.max_uses))
      × (used ≡ record i { use_count = (i.use_count + 1) % u32_mod })
unfolding try_use is_valid
try_use-ok now i used h = (ground arith, λ limited. ground arith, ground arith)
