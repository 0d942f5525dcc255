-- ===== src/Volume.antt =====
-- crates/tgcryptfs-core/src/volume/manager.rs, with the key derivation of crypto/kdf.rs and keys.rs;
-- Config is volume/config.rs. Argon2id, HKDF, BLAKE3, hex and JSON are parameters; what is random is
-- an argument. The disk is a map from paths to the contents of the volumes' configuration files.
pub mod Config
pub mod Compare
pub mod Opening
pub mod Roots
use Prim.Native.Nat.{bit_or, bit_xor}
use tgcryptfs.Crypto.Aead.{Bytes}
use tgcryptfs.Common.Dict.{Dict, lookup, insert, list_eq, nat_eq}
use Config.{Argon2Params, VolumeConfig, Draws, new_config}
use tgcryptfs.Common.Writes.{WriteResult, all_written, not_opened, cut_short}
use tgcryptfs.Common.{
  take, ℕ, ◌≡◌, Bool, not, Option, none, some, [], ◌∷◌, ltb, ◌==◌, if◌then◌else◌, Result, ok, err,
  ◌>>=◌, ◌>>◌, length, take,
}

-- The errors that the volume manager makes; `panicked`: an `unwrap` or a slice out of range.
pub data CoreError : Type 0 where
  key_derivation volume serialization decryption panicked : CoreError

pub record KeyHierarchy : Type 0 where
  pub root : Bytes
  pub for_data : Bytes
  pub meta : Bytes
  pub schema : Bytes
  pub integrity : Bytes
  pub wrapping : Bytes
  pub deadman : Bytes

pub record Crates : Type 0 where
  pub argon2 : Bytes → Bytes → Argon2Params → Option Bytes
  pub hkdf : Option Bytes → Bytes → Bytes → Option Bytes
  pub blake3 : Bytes → Bytes
  pub hex_encode : Bytes → Bytes
  pub to_json : VolumeConfig → Option Bytes
  pub from_json : Bytes → Option VolumeConfig
  pub reads_back :
      (c : VolumeConfig) (json : Bytes) → to_json c ≡ some json → from_json json ≡ some c
  pub argon2_size :
      (password salt : Bytes) (params : Argon2Params) (out : Bytes)
      → argon2 password salt params ≡ some out
      → length out ≡ params.output_len

-- b"SentenceRefs.v1:" and the name of the key.
abbrev pub label : Bytes → Bytes
label name =
    b'S' ∷ b'e' ∷ b'n' ∷ b't' ∷ b'e' ∷ b'n' ∷ b'c' ∷ b'e' ∷ b'R' ∷ b'e' ∷ b'f' ∷ b's' ∷ b'.' ∷ b'v'
    ∷ b'1' ∷ b':' ∷ name

abbrev pub or_failure : {A : Type 0} → CoreError → Option A → Result CoreError A
or_failure e none = err e
or_failure e (some a) = ok a

-- The loop that ors the exclusive ors of the bytes, up to the end of the shorter list.
unfoldable pub diff_loop : ℕ → Bytes → Bytes → ℕ
diff_loop diff [] bs = diff
diff_loop diff (a ∷ as') [] = diff
diff_loop diff (a ∷ as') (b ∷ bs) = diff_loop (bit_or diff (bit_xor a b)) as' bs

unfoldable pub hash_diff : Bytes → Bytes → ℕ
hash_diff actual expected = diff_loop (bit_xor (length actual) (length expected)) actual expected

module _ (crates : Crates) where
  open crates use {argon2, hkdf, blake3, hex_encode, to_json, from_json}

  -- The first 32 bytes of the output; a shorter output is a slice out of range.
  unfoldable pub derive_root_key : Bytes → Bytes → Argon2Params → Result CoreError Bytes
  derive_root_key password salt params = do
    output ← or_failure key_derivation (argon2 password salt params)
    if ltb (length output) 32 then err panicked else ok (take 32 output)

  abbrev pub hkdf_derive_with_salt : Bytes → Bytes → Option Bytes → Result CoreError Bytes
  hkdf_derive_with_salt parent info salt = or_failure key_derivation (hkdf salt parent info)

  unfoldable pub derive_hierarchy : Bytes → Bytes → Result CoreError KeyHierarchy
  derive_hierarchy root salt = do
    for_data ← hkdf_derive_with_salt root (label (b'd' ∷ b'a' ∷ b't' ∷ b'a' ∷ [])) (some salt)
    meta ← hkdf_derive_with_salt root (label (b'm' ∷ b'e' ∷ b't' ∷ b'a' ∷ [])) (some salt)
    schema ←
        hkdf_derive_with_salt root (label (b's' ∷ b'c' ∷ b'h' ∷ b'e' ∷ b'm' ∷ b'a' ∷ []))
          (some salt)
    integrity ← hkdf_derive_with_salt root (label (b'i' ∷ b'h' ∷ [])) (some salt)
    wrapping ←
        hkdf_derive_with_salt root
          (label (b'w' ∷ b'r' ∷ b'a' ∷ b'p' ∷ b'p' ∷ b'i' ∷ b'n' ∷ b'g' ∷ [])) (some salt)
    deadman ←
        hkdf_derive_with_salt root (label (b'd' ∷ b'e' ∷ b'a' ∷ b'd' ∷ b'm' ∷ b'a' ∷ b'n' ∷ []))
          (some salt)
    ok (record {
      root = root;
      for_data = for_data;
      meta = meta;
      schema = schema;
      integrity = integrity;
      wrapping = wrapping;
      deadman = deadman;
    })

  -- b"password-verification"
  abbrev pub verification_info : Bytes
  verification_info =
      b'p' ∷ b'a' ∷ b's' ∷ b's' ∷ b'w' ∷ b'o' ∷ b'r' ∷ b'd' ∷ b'-' ∷ b'v' ∷ b'e' ∷ b'r' ∷ b'i'
      ∷ b'f' ∷ b'i' ∷ b'c' ∷ b'a' ∷ b't' ∷ b'i' ∷ b'o' ∷ b'n' ∷ []

  unfoldable pub compute_verification_hash : KeyHierarchy → Result CoreError Bytes
  compute_verification_hash hierarchy = do
    key ← or_failure panicked (hkdf none hierarchy.root verification_info)
    ok (hex_encode (blake3 key))

-- The configuration files by their paths; `path` joins the directory of the volumes, the id and the
-- file's name.
abbrev pub Disk : Type 0
Disk = Dict Bytes Bytes

module _ (crates : Crates) (path : Bytes → Bytes) where
  unfoldable pub derive_keys : Bytes → VolumeConfig → Result CoreError KeyHierarchy
  derive_keys password config = do
    root_key ← derive_root_key crates password config.salt config.kdf_params
    derive_hierarchy crates root_key config.salt

  -- The configuration with the hash, its JSON and the keys.
  unfoldable pub prepare :
      Bytes → VolumeConfig → Result CoreError (VolumeConfig × Bytes × KeyHierarchy)
  prepare password config = do
    hierarchy ← derive_keys password config
    hash ← compute_verification_hash crates hierarchy
    let hashed : VolumeConfig = record config { password_verification_hash = some hash }
    json ← or_failure serialization (crates.to_json hashed)
    ok (hashed, json, hierarchy)

  -- `generated` are two group names; the flag says whether the directories can be made.
  unfoldable pub create_volume :
      Bool
      → WriteResult
      → Draws
      → Bytes × Bytes
      → Option Bytes
      → Bytes
      → Disk
      → Disk × Result CoreError (VolumeConfig × KeyHierarchy)
  create_volume dirs_work write d generated name password disk =
      let display_name : Bytes = elim name [ none ↦ generated.0 | some given ↦ given ] in
      let prepared = prepare password (new_config d display_name generated.1) in
      if not dirs_work then (disk, err volume) else elim prepared [
        | err e ↦ (disk, err e)
        | ok (config, json, hierarchy) ↦ elim write [
          | all_written ↦ (insert (path config.volume_id) json disk, ok (config, hierarchy))
          | not_opened ↦ (disk, err volume)
          | cut_short n ↦ (insert (path config.volume_id) (take n json) disk, err volume)
        ]
      ]

  -- An old configuration has no hash, and any password is taken.
  unfoldable pub check_hash : Option Bytes → KeyHierarchy → Result CoreError (Unit {0})
  check_hash none hierarchy = ok tt
  check_hash (some expected_hash) hierarchy = do
    actual_hash ← compute_verification_hash crates hierarchy
    if not (hash_diff actual_hash expected_hash == 0) then err decryption else ok tt

  unfoldable pub open_config : Bytes → Bytes → Result CoreError (VolumeConfig × KeyHierarchy)
  open_config password json = do
    config ← or_failure serialization (crates.from_json json)
    hierarchy ← derive_keys password config
    _ ← check_hash config.password_verification_hash hierarchy
    ok (config, hierarchy)

  -- The flag says whether the file can be read.
  unfoldable pub open_volume :
      Bool → Bytes → Bytes → Disk → Result CoreError (VolumeConfig × KeyHierarchy)
  open_volume read_works volume_id password disk = elim (lookup (path volume_id) disk) [
    | none ↦ err volume
    | some json ↦ if not read_works then err volume else open_config password json
  ]
