-- ===== src/Shredding/Volumes.antt =====
-- The deletion of a volume, and the list of the volumes.
use tgcryptfs.Crypto.Aead.{Bytes}
use tgcryptfs.Common.Dict.{Dict, lookup, list_eq, nat_eq, list_beq}
use tgcryptfs.Volume.{CoreError, volume}
use tgcryptfs.Shredding.{Forest, files, Io, shred_directory}
use tgcryptfs.Shredding.Directories.{Matches, Remains}
use tgcryptfs.Common.{◌≡◌, ◌⊎◌, false, none, some, Result, ok, err}

module _ (io : Io) (left_of : Forest → Forest) where
  abbrev pub Deleted : Bytes → Forest → Dict Bytes Forest × Result CoreError (Unit {0}) → Type 0
  Deleted volume_id entries after =
      (after.1 ≡ ok tt)
        × (lookup volume_id after.0 ≡ none)
        × Matches 3 (files entries) (shred_directory io entries 0).written
      ⊎ (after.1 ≡ err volume)
        × ((left : Forest) × (lookup volume_id after.0 ≡ some left)
            × Remains (files entries) (files left))

  abbrev pub KeepsOthers : Bytes → Dict Bytes Forest → Dict Bytes Forest → Type 0
  KeepsOthers volume_id volumes after =
      (other : Bytes) → list_beq volume_id other ≡ false → lookup other after ≡ lookup other volumes
