-- ===== src/Tests/Handles.antt =====
-- The handle table and the buffers on small inputs.
use tgcryptfs.Common.Dict.{list_eq, nat_eq}
use tgcryptfs.Fuse.Handles.{no_handles, write_at, extend_to, read_at}
use tgcryptfs.Fuse.Handles.Buffers.{read_at-write_at}
use tgcryptfs.Fuse.Handles.Tables.{IsTable}
use tgcryptfs.Common.{
  ℕ, ◌+◌, ◌-◌, ◌<◌, ◌≡◌, refl, ◌&&◌, [], ◌∷◌, ltb, leb, if◌then◌else◌, length, get_or,
}

written_over : write_at 2 (8 ∷ 9 ∷ []) (1 ∷ []) ≡ 1 ∷ 0 ∷ 8 ∷ 9 ∷ []
unfolding write_at extend_to
written_over = refl

read_back : read_at 1 2 (1 ∷ 0 ∷ 8 ∷ 9 ∷ []) ≡ 0 ∷ 8 ∷ []
unfolding read_at
read_back = refl

no_handles-IsTable : IsTable no_handles
no_handles-IsTable = record { issued = tt; unique = tt }

read_at-write_at_example :
    (length (read_at 1 2 (write_at 2 (8 ∷ 9 ∷ []) (1 ∷ []))) ≡ 2)
    × ((i : ℕ)
        → i < 2
        → get_or (read_at 1 2 (write_at 2 (8 ∷ 9 ∷ []) (1 ∷ []))) i 0 ≡ (
            if leb 2 (1 + i) && ltb (1 + i) 4
            then get_or (8 ∷ 9 ∷ []) (1 + i - 2) 0
            else get_or (1 ∷ []) (1 + i) 0))
read_at-write_at_example = read_at-write_at 1 2 2 (8 ∷ 9 ∷ []) (1 ∷ [])
