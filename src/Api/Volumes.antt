-- ===== src/Api/Volumes.antt =====
-- `create` and `open` of crates/tgcryptfs-api/src/service/volume.rs over the volume manager and the
-- sentence references. The words of a sentence stand as a list, which the code joins with spaces.
use mathlib.Core.Path.{subst}
use tgcryptfs.Crypto.Aead.{Bytes}
use tgcryptfs.Common.Dict.{list_eq, nat_eq}
use tgcryptfs.Api.{ApiError, invalid_argument, crypto}
use tgcryptfs.Sentence.{Word, encode_ref, decode_ref, build_reverse_lookup}
use tgcryptfs.Sentence.RoundTrip.{IsWordlist, decode_ref-encode_ref}
use tgcryptfs.Volume.{
  KeyHierarchy, Crates, Disk, derive_keys, compute_verification_hash, create_volume, open_volume,
}
use tgcryptfs.Volume.Config.{VolumeConfig, Argon2Params, Draws}
use tgcryptfs.Volume.Opening.{open_volume-create_volume, create_volume-derived}
use tgcryptfs.Volume.Roots.{derive_keys-root}
use tgcryptfs.Common.Writes.{WriteResult}
use tgcryptfs.Common.{
  ◌≤◌, ◌<◌, ◌≡◌, refl, ◌≢◌, inl, inr, Bool, true, Option, some, List, map, arith, ltb,
  if◌then◌else◌, Bool-cases, Result, ok, err, length, All, Result-cases,
}

pub record CreateVolumeResponse : Type 0 where
  pub volume_id : Bytes
  pub display_name : Bytes
  pub sentence_ref : List Word

module _ (crates : Crates) (path : Bytes → Bytes) where
  unfoldable pub open_service : Bool → Bytes → Bytes → Disk → Result ApiError (Unit {0})
  open_service read_works volume_id password disk =
      elim (open_volume crates path read_works volume_id password disk) [
        | err _ ↦ err crypto
        | ok _ ↦ ok tt
      ]

module _ (crates : Crates) (path : Bytes → Bytes) (wordlists : List (List Word)) where
  -- What follows in `create` on the manager's answer.
  unfoldable pub respond : VolumeConfig × KeyHierarchy → Result ApiError CreateVolumeResponse
  respond (config, hierarchy) = elim (encode_ref hierarchy.root wordlists) [
    | err _ ↦ err crypto
    | ok sentence ↦ ok (record {
      volume_id = config.volume_id;
      display_name = config.display_name;
      sentence_ref = sentence;
    })
  ]

  -- The arguments before the password are those of `create_volume`.
  unfoldable pub create_service :
      Bool
      → WriteResult
      → Draws
      → Bytes × Bytes
      → Option Bytes
      → Bytes
      → Disk
      → Disk × Result ApiError CreateVolumeResponse
  create_service dirs_work write d generated name password disk =
      let created = create_volume crates path dirs_work write d generated name password disk in
      if ltb (length password) 8
      then (disk, err invalid_argument)
      else elim created.1 [ err _ ↦ (created.0, err crypto) | ok made ↦ (created.0, respond made) ]

  created_cases :
      (dirs_work : Bool) (write : WriteResult) (d : Draws) (generated : Bytes × Bytes)
      (name : Option Bytes) (password : Bytes) (disk : Disk) (response : CreateVolumeResponse)
      → let out = create_service dirs_work write d generated name password disk in
        let created = create_volume crates path dirs_work write d generated name password disk in
        out.1 ≡ ok response
        → (config : VolumeConfig) × (keys : KeyHierarchy) × (created.1 ≡ ok (config, keys))
          × (respond (config, keys) ≡ ok response)
          × (out.0 ≡ created.0)
          × (8 ≤ length password)
  unfolding create_service
  created_cases dirs_work write d generated name password disk response h =
      elim (Bool-cases (ltb (length password) 8)) [
        | inl short ↦ absurd (ground arith)
        | inr long ↦
            elim (Result-cases
              (create_volume crates path dirs_work write d generated name password disk).1) [
                | inr (e, c) ↦ absurd (ground arith)
                | inl ((config, keys), c) ↦
                    (config, keys, c, ground arith, ground arith, ground arith)
              ]
      ]

  responded :
      (config : VolumeConfig) (keys : KeyHierarchy) (response : CreateVolumeResponse)
      → respond (config, keys) ≡ ok response
      → (encode_ref keys.root wordlists ≡ ok response.sentence_ref)
        × (response.volume_id ≡ config.volume_id)
  unfolding respond
  responded config keys response h = elim (Result-cases (encode_ref keys.root wordlists)) [
    | inr (e, c) ↦ absurd (ground arith)
    | inl (sentence, c) ↦ (ground arith, ground arith)
  ]

  decoded :
      (root : Bytes) (sentence : List Word)
      → length wordlists ≡ 4
      → All IsWordlist wordlists
      → (length root ≡ 32) × All (λ b. b < 256) root
      → encode_ref root wordlists ≡ ok sentence
      → decode_ref sentence (map build_reverse_lookup wordlists) ≡ ok root
  decoded root sentence four good sized h =
      let (words, encoded, many, back) =
        decode_ref-encode_ref root wordlists sized.0 sized.1 four good in
      let same : words ≡ sentence = cc in
      subst (λ ws. decode_ref ws (map build_reverse_lookup wordlists) ≡ ok root) same back

  -- With four word lists of 4096 distinct words at least, and an Argon2id that answers bytes: when
  -- `create` answers a volume, the password has 8 bytes at least, the sentence decodes to the root key of
  -- the volume, `open` with the password answers Ok and gives the manager the keys of that root, and
  -- `open` with a password whose keys have another hash than the one that was kept is the error for
  -- cryptography (the files can be read).
  pub create_service-open_service :
      (dirs_work : Bool) (write : WriteResult) (d : Draws) (generated : Bytes × Bytes)
      (name : Option Bytes) (password : Bytes) (disk : Disk) (response : CreateVolumeResponse)
      → length wordlists ≡ 4
      → All IsWordlist wordlists
      → ((word salt out : Bytes) (params : Argon2Params)
          → crates.argon2 word salt params ≡ some out
          → All (λ b. b < 256) out)
      → (create_service dirs_work write d generated name password disk).1 ≡ ok response
      → let disk' = (create_service dirs_work write d generated name password disk).0 in
        (8 ≤ length password)
        × ((config : VolumeConfig) × (keys : KeyHierarchy) × (decode_ref response.sentence_ref
                (map build_reverse_lookup wordlists)
              ≡ ok keys.root)
            × (open_volume crates path true response.volume_id password disk' ≡ ok (config, keys))
            × (open_service crates path true response.volume_id password disk' ≡ ok tt)
            × ((other hash' : Bytes) (keys' : KeyHierarchy)
                → derive_keys crates path other config ≡ ok keys'
                → compute_verification_hash crates keys' ≡ ok hash'
                → config.password_verification_hash ≢ some hash'
                → open_service crates path true response.volume_id other disk' ≡ err crypto))
  unfolding open_service
  create_service-open_service dirs_work write d generated name password disk response four good
        are_bytes h =
      let (config, keys, created, responds, same_disk, long) =
        created_cases dirs_work write d generated name password disk response h in
      let (encoded, same_id) = responded config keys response responds in
      let derived =
        create_volume-derived crates path dirs_work write d generated name password disk config keys
          created in
      let sized =
        derive_keys-root crates path password config keys
          (λ out e. are_bytes password config.salt out config.kdf_params e) derived in
      let opens =
        open_volume-create_volume crates path dirs_work write d generated name password disk config
          keys created in
      (
        long,
        (
          config,
          keys,
          decoded keys.root response.sentence_ref four good sized encoded,
          rw (same_disk, same_id) opens.0,
          rw (same_disk, same_id, opens.0, open_service) refl,
          λ other hash' keys' k v differs.
              let wrong = opens.1 other hash' keys' k v differs in
              rw (same_disk, same_id, wrong, open_service) refl,
        ),
      )
