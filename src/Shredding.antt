-- ===== src/Shredding.antt =====
-- Files that are overwritten and removed: `shred_file`, `shred_directory` and `delete_volume` of
-- crates/tgcryptfs-core/src/volume/manager.rs, and `shred_file` and `wipe_directory` of
-- crates/tgcryptfs-deadman/src/destroy.rs. The calls of the file system are numbered, and each may
-- fail. A directory is listed in the order of its entries and holds no symbolic links.
pub mod Passes
pub mod Directories
pub mod Volumes
use tgcryptfs.Crypto.Aead.{Bytes}
use tgcryptfs.Common.Dict.{Dict, lookup, insert, remove, list_eq, nat_eq}
use tgcryptfs.Volume.{CoreError, volume}
use tgcryptfs.Common.{
  ℕ, zero, suc, ◌+◌, ◌≡◌, Bool, true, false, not, ◌&&◌, ◌||◌, Option, none, some, List, [], ◌∷◌,
  ◌++◌, if◌then◌else◌, Result, ok, err, length,
}

-- The entries of a directory by their names.
pub data Forest : Type 0 where
  nothing : Forest
  file : Bytes → Bytes → Forest → Forest
  dir : Bytes → Forest → Forest → Forest

-- The contents of all files, in the order in which they are reached.
abbrev pub files : Forest → List Bytes
files nothing = []
files (file name contents rest) = contents ∷ files rest
files (dir name sub rest) = files sub ++ files rest

-- The file system and the generator: whether a call works, the random bytes of a size, and what a
-- write that fails leaves in the file.
pub record Io : Type 0 where
  pub works : ℕ → Bool
  pub random : ℕ → ℕ → Bytes
  pub sized : (n size : ℕ) → length (random n size) ≡ size
  pub leftover : ℕ → Bytes

-- `left`: what is in the file, or none when it is removed; `written`: what the passes wrote.
pub record FileShred : Type 0 where
  pub left : Option Bytes
  pub written : List Bytes
  pub done : Bool
  pub calls : ℕ

pub record ForestShred : Type 0 where
  pub left : Forest
  pub written : List (List Bytes)
  pub done : Bool
  pub calls : ℕ

module _ (io : Io) where
  open io use {works, random, leftover}

  -- Each pass writes, opens and syncs; then the file is removed.
  unfoldable pub pass_loop : ℕ → ℕ → Bytes → ℕ → FileShred
  pass_loop zero size contents n = record {
    left = if works n then none else some contents;
    written = [];
    done = works n;
    calls = n + 1;
  }
  pass_loop (suc passes) size contents n =
      let pattern_ : Bytes = random n size in
      let next = pass_loop passes size pattern_ (n + 3) in
      if not (works n)
      then record { left = some (leftover n); written = []; done = false; calls = n + 1 }
      else if not (works (n + 1) && works (n + 2))
      then record { left = some pattern_; written = pattern_ ∷ []; done = false; calls = n + 3 }
      else record next { written = pattern_ ∷ next.written }

  unfoldable pub shred_file : ℕ → Bytes → ℕ → FileShred
  shred_file passes contents n =
      if not (works n)
      then record { left = some contents; written = []; done = false; calls = n + 1 }
      else pass_loop passes (length contents) contents (n + 1)

  -- `removes`: a subdirectory is removed when its entries are done.
  module _ (passes : ℕ) (removes : Bool) where
    unfoldable pub shred_entries : Forest → ℕ → ForestShred
    shred_entries nothing n = record { left = nothing; written = []; done = true; calls = n }
    shred_entries (file name contents rest) n =
        let one = shred_file passes contents (n + 1) in
        let others = shred_entries rest one.calls in
        if not (works n)
        then record { left = file name contents rest; written = []; done = false; calls = n + 1 }
        else elim one.left [
          | some changed ↦ record {
            left = file name changed rest;
            written = one.written ∷ [];
            done = false;
            calls = one.calls;
          }
          | none ↦ record others { written = one.written ∷ others.written }
        ]
    shred_entries (dir name sub rest) n =
        let inner = shred_entries sub (n + 2) in
        let others = shred_entries rest (if removes then inner.calls + 1 else inner.calls) in
        if not (works n && works (n + 1))
        then record { left = dir name sub rest; written = []; done = false; calls = n + 2 }
        else if not inner.done || removes && not (works inner.calls)
        then record inner { left = dir name inner.left rest; done = false }
        else record others {
          left = if removes then others.left else dir name inner.left others.left;
          written = inner.written ++ others.written;
        }

  -- Listed and shredded in three passes.
  unfoldable pub shred_directory : Forest → ℕ → ForestShred
  shred_directory entries n =
      if not (works n)
      then record { left = entries; written = []; done = false; calls = n + 1 }
      else shred_entries 3 false entries (n + 1)

  -- One pass, and the directory is removed; `none`: it is not there.
  unfoldable pub wipe_directory : Option Forest → ℕ → Option Forest × ForestShred
  wipe_directory none n = (none, record { left = nothing; written = []; done = true; calls = n })
  wipe_directory (some entries) n =
      let inner = shred_entries 1 true entries (n + 1) in
      if not (works n)
      then (some entries, record { left = entries; written = []; done = false; calls = n + 1 })
      else if not inner.done
      then (some inner.left, inner)
      else if not (works inner.calls)
      then (some inner.left, record inner { done = false })
      else (none, inner)

  -- The directories of the volumes by their ids; `left_of` is what a removal that fails leaves.
  unfoldable pub delete_volume :
      (Forest → Forest)
      → Bytes
      → Dict Bytes Forest
      → Dict Bytes Forest × Result CoreError (Unit {0})
  delete_volume left_of volume_id volumes = elim (lookup volume_id volumes) [
    | none ↦ (volumes, err volume)
    | some entries ↦
        let shredded = shred_directory entries 0 in
        if not shredded.done
        then (insert volume_id shredded.left volumes, err volume)
        else if not (works shredded.calls)
        then (insert volume_id (left_of shredded.left) volumes, err volume)
        else (remove volume_id volumes, ok tt)
  ]
