-- ===== src/Common/Writes.antt =====
-- How `std::fs::write` ends.
use Prim.Native.Nat.{ℕ}

-- It makes the file empty when it opens it, so that an error may come before that, or leave the file
-- with the first bytes only.
pub data WriteResult : Type 0 where
  all_written not_opened : WriteResult
  cut_short : ℕ → WriteResult
