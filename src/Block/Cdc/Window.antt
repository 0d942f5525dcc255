-- ===== src/Block/Cdc/Window.antt =====
-- The rolling hash of block/cdc.rs: the factor of the byte that leaves the window.
use tgcryptfs.Common.{ℕ, ◌*◌, ◌%◌, ◌≡◌, refl, List, arith, u64_mod, add_u64, get_or}
use tgcryptfs.Block.Cdc.{pow_mod, roll, next_fingerprint, window_size}

-- 256 ^ 48 wraps to 0 on u64.
pow_mod_window : pow_mod 256 window_size ≡ 0
unfolding pow_mod
pow_mod_window = refl

roll-eq_push :
    (data_bytes : List ℕ) (i fingerprint : ℕ)
    → roll data_bytes i fingerprint ≡ add_u64 (fingerprint * 256 % u64_mod) (get_or data_bytes i 0)
unfolding roll
roll-eq_push data_bytes i fingerprint = rw pow_mod_window (ground arith)

-- The byte that leaves the 48-byte window is never taken out of the fingerprint: one step depends
-- on the fingerprint and the byte at `i` alone, whatever the bytes before `i` are.
next_fingerprint-last_byte :
    (xs ys : List ℕ) (i fingerprint : ℕ)
    → get_or xs i 0 ≡ get_or ys i 0
    → next_fingerprint xs i fingerprint ≡ next_fingerprint ys i fingerprint
unfolding next_fingerprint
next_fingerprint-last_byte xs ys i fingerprint h = rw (roll-eq_push, roll-eq_push, h)
