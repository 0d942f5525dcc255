-- ===== src/Tests/Shreds.antt =====
-- A volume with a database, a cache and a configuration, deleted.
use tgcryptfs.Crypto.Aead.{Bytes}
use tgcryptfs.Common.Dict.{Dict, insert, list_eq, nat_eq}
use tgcryptfs.Volume.{volume}
use tgcryptfs.Shredding.{
  Forest, nothing, file, dir, Io, pass_loop, shred_file, shred_entries, shred_directory,
  wipe_directory, delete_volume,
}
use tgcryptfs.Common.{
  length-replicate, ℕ, ◌≡◌, refl, not, none, some, [], ◌∷◌, ◌==◌, err, replicate,
}

abbrev entries : Forest
entries =
    file (1 ∷ []) (5 ∷ 6 ∷ [])
      (dir (2 ∷ []) (file (3 ∷ []) (7 ∷ []) nothing) (file (4 ∷ []) (8 ∷ 9 ∷ []) nothing))

-- The call with this number fails.
abbrev failing_at : ℕ → Io
failing_at k = record {
  works = λ n. not (n == k);
  random = λ n size. replicate size n;
  sized = λ n size. length-replicate n size;
  leftover = λ n. [];
}

abbrev volumes : Dict Bytes Forest
volumes = (9 ∷ [], nothing) ∷ (6 ∷ [], entries) ∷ []

-- The second file's first write fails, and the first file is gone by then.
stops_midway : delete_volume (failing_at 17) (λ f. f) (6 ∷ []) volumes ≡ (
  insert
      (6 ∷ [])
      (dir (2 ∷ []) (file (3 ∷ []) [] nothing) (file (4 ∷ []) (8 ∷ 9 ∷ []) nothing))
      volumes,
  err volume,
)
unfolding delete_volume shred_directory shred_entries shred_file pass_loop
stops_midway = refl

-- Wiping a cache takes one pass and the directories with it.
wipes : (wipe_directory (failing_at 100) (some entries) 0).0 ≡ none
unfolding wipe_directory shred_entries shred_file pass_loop
wipes = refl
