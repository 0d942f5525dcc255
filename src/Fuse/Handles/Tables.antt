-- ===== src/Fuse/Handles/Tables.antt =====
-- The numbers that the handle table gives out.
use tgcryptfs.Common.Dict.{
  lookup, insert, list_eq, nat_eq, NoDup, NoDup-insert, lookup-insert, All-remove, All-lookup,
}
use tgcryptfs.Fuse.Handles.{FileHandle, HandleTable, open_handle, get_handle}
use mathlib.Core.Path.{subst}
use tgcryptfs.Common.{
  ℕ, ◌+◌, ◌<◌, ◌≡◌, refl, sym, ◌≢◌, inl, inr, false, none, some, [], arith, Option-cases, u64_mod,
  add_u64, All, All-mono,
}

-- Each open handle stands under its own number, which was given out before the next one.
pub IsIssued : ℕ → ℕ × FileHandle → Type 0
IsIssued next (fh, h) = (fh < next) × (h.fh ≡ fh)

pub record IsTable (t : HandleTable) : Type 0 where
  pub issued : All (IsIssued t.next_fh) t.handles
  pub unique : NoDup t.handles

-- No handle is open under the next number.
pub get_handle-next : (t : HandleTable) → IsTable t → get_handle t.next_fh t ≡ none
unfolding get_handle IsIssued
get_handle-next t v = elim (Option-cases (lookup t.next_fh t.handles)) [
  | inl e ↦ e
  | inr (h, e) ↦
      absurd (omega (arith, (All-lookup (IsIssued t.next_fh) t.next_fh t.handles h v.issued e).0))
]

-- While fewer than 2^64 - 1 numbers have been given out, `open` keeps the table's invariant and
-- gives a number under which no handle was open. Under it then stands a clean handle with an empty
-- buffer for the inode, and every other number has the handle that it had.
open_handle-IsFresh :
    (ino flags : ℕ) (t : HandleTable)
    → IsTable t
    → t.next_fh + 1 < u64_mod
    → IsTable (open_handle ino flags t).0
      × (get_handle (open_handle ino flags t).1 t ≡ none)
      × (get_handle (open_handle ino flags t).1 (open_handle ino flags t).0
          ≡ some (record {
            fh = t.next_fh;
            ino = ino;
            flags = flags;
            write_buffer = [];
            dirty = false;
          }))
      × ((fh : ℕ)
          → fh ≢ (open_handle ino flags t).1
          → get_handle fh (open_handle ino flags t).0 ≡ get_handle fh t)
unfolding open_handle get_handle IsIssued
open_handle-IsFresh ino flags t v bound =
    let h : FileHandle = record {
      fh = t.next_fh;
      ino = ino;
      flags = flags;
      write_buffer = [];
      dirty = false;
    } in
    let step : add_u64 t.next_fh 1 ≡ t.next_fh + 1 = omega arith in
    let later : All (IsIssued (t.next_fh + 1)) t.handles =
      All-mono (λ p q. (omega (arith, q.0), q.1)) t.handles v.issued in
    (
      record {
        issued =
            subst (λ n. All (IsIssued n) (insert t.next_fh h t.handles)) (sym step)
              (
                (omega arith, refl),
                All-remove (IsIssued (t.next_fh + 1)) t.next_fh t.handles later,
              );
        unique = NoDup-insert t.next_fh h t.handles v.unique;
      },
      get_handle-next t v,
      ground (arith, lookup-insert t.next_fh t.next_fh h t.handles),
      λ fh ne. ground (arith, lookup-insert t.next_fh fh h t.handles),
    )
