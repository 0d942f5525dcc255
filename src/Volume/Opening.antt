-- ===== src/Volume/Opening.antt =====
-- Opening a volume that was created.
use mathlib.Core.Path.{subst}
use tgcryptfs.Crypto.Aead.{Bytes}
use tgcryptfs.Common.Dict.{lookup, insert, lookup-insert, beq_refl, list_eq, nat_eq}
use tgcryptfs.Volume.{
  KeyHierarchy, decryption, Crates, hash_diff, Disk, compute_verification_hash, derive_keys,
  prepare, create_volume, check_hash, open_config, open_volume,
}
use tgcryptfs.Volume.Config.{VolumeConfig, Draws, new_config}
use tgcryptfs.Volume.Compare.{hash_diff_iff}
use tgcryptfs.Common.Writes.{WriteResult, all_written}
use tgcryptfs.Common.{
  ◌≡◌, refl, sym, ap, ◌∙◌, ◌≢◌, inl, inr, Bool, true, false, Option, none, some, arith, ◌==◌,
  ==_iff, Bool-cases, Option-cases, ok, err, Result-cases,
}

found_again : (key json : Bytes) (disk : Disk) → lookup key (insert key json disk) ≡ some json
found_again key json disk = rw (lookup-insert key key json disk) (rw (beq_refl key) refl)

module _ (crates : Crates) (path : Bytes → Bytes) where
  -- What a configuration that was prepared has to do with its keys.
  record Prepared (password : Bytes) (config : VolumeConfig) (json : Bytes) (keys : KeyHierarchy)
      : Type 0 where
    hash : Bytes
    derived : derive_keys crates path password config ≡ ok keys
    hashed : compute_verification_hash crates keys ≡ ok hash
    kept : config.password_verification_hash ≡ some hash
    read_back : crates.from_json json ≡ some config

  prepare-ok :
      (password : Bytes) (fresh config : VolumeConfig) (json : Bytes) (keys : KeyHierarchy)
      → prepare crates path password fresh ≡ ok (config, json, keys)
      → Prepared password config json keys
  unfolding prepare derive_keys
  prepare-ok password fresh config json keys h =
      elim (Result-cases (derive_keys crates path password fresh)) [
        | inr (e, d) ↦ absurd (ground arith)
        | inl (k, d) ↦ elim (Result-cases (compute_verification_hash crates k)) [
          | inr (e, v) ↦ absurd (ground arith)
          | inl (hash, v) ↦
              let hashed : VolumeConfig = record fresh { password_verification_hash = some hash } in
              elim (Option-cases (crates.to_json hashed)) [
                | inl e ↦ absurd (ground arith)
                | inr (text, e) ↦
                    let (same_config, same_json, same_keys) : (hashed ≡ config)
                        × (text ≡ json)
                        × (k ≡ keys) =
                      ground arith in
                    let now : Prepared password hashed text k = record {
                      hash = hash;
                      derived = d;
                      hashed = v;
                      kept = refl;
                      read_back = crates.reads_back hashed text e;
                    } in
                    subst (λ x. Prepared password x json keys) same_config
                      (subst (λ x. Prepared password hashed x keys) same_json
                        (subst (λ x. Prepared password hashed text x) same_keys now))
              ]
        ]
      ]

  -- A creation that works has prepared a configuration and written it.
  create_volume-ok :
      (dirs_work : Bool) (write : WriteResult) (d : Draws) (generated : Bytes × Bytes)
      (name : Option Bytes) (password : Bytes) (disk : Disk) (config : VolumeConfig)
      (keys : KeyHierarchy)
      → let out = create_volume crates path dirs_work write d generated name password disk in
        out.1 ≡ ok (config, keys)
        → (json : Bytes) × Prepared password config json keys
          × (lookup (path config.volume_id) out.0 ≡ some json)
  unfolding create_volume
  create_volume-ok dirs_work write d generated name password disk config keys h =
      let given : Bytes = elim name [ none ↦ generated.0 | some given ↦ given ] in
      let fresh = new_config d given generated.1 in
      elim (Result-cases (prepare crates path password fresh)) [
        | inr (e, p) ↦ absurd (ground arith)
        | inl ((config', json, keys'), p) ↦
            let (works, writes, same_config, same_keys) : (dirs_work ≡ true)
                × (write ≡ all_written)
                × (config' ≡ config)
                × (keys' ≡ keys) =
              ground arith in
            let written : (create_volume crates path dirs_work write d generated name password
                  disk).0
                ≡ insert (path config'.volume_id) json disk =
              rw (works, p, writes, create_volume) refl in
            (
              json,
              subst (λ x. Prepared password x json keys) same_config
                  (subst (λ x. Prepared password config' json x) same_keys
                    (prepare-ok password fresh config' json keys' p)),
              ap (lookup (path config.volume_id)) written
                  ∙ subst
                      (λ (x : VolumeConfig).
                        lookup (path x.volume_id) (insert (path config'.volume_id) json disk)
                        ≡ some json)
                      same_config (found_again (path config'.volume_id) json disk),
            )
      ]

  open-Prepared :
      (password : Bytes) (config : VolumeConfig) (json : Bytes) (keys : KeyHierarchy)
      → Prepared password config json keys
      → open_config crates path password json ≡ ok (config, keys)
  unfolding open_config check_hash
  open-Prepared password config json keys p =
      let hash = p.hash in
      let derived = p.derived in
      let hashed = p.hashed in
      let kept = p.kept in
      let read_back = p.read_back in
      let same = (hash_diff_iff hash hash).1 refl in ground (arith, same)

  open_other :
      (password other : Bytes) (config : VolumeConfig) (json : Bytes) (keys keys' : KeyHierarchy)
      (hash' : Bytes)
      → Prepared password config json keys
      → derive_keys crates path other config ≡ ok keys'
      → compute_verification_hash crates keys' ≡ ok hash'
      → config.password_verification_hash ≢ some hash'
      → open_config crates path other json ≡ err decryption
  unfolding open_config check_hash
  open_other password other config json keys keys' hash' p derived hashed differs =
      let kept = p.kept in
      let read_back = p.read_back in
      let distinct : (hash_diff hash' p.hash == 0) ≡ false =
        elim (Bool-cases (hash_diff hash' p.hash == 0)) [
          | inr e ↦ e
          | inl e ↦ absurd (
              differs (
                kept
                ∙ ap some (
                    sym
                      ((hash_diff_iff hash' p.hash).0 ((==_iff (hash_diff hash' p.hash) 0).0 e)))))
        ] in
      ground (arith, distinct)

  opened :
      (volume_id password json : Bytes) (disk : Disk)
      → lookup (path volume_id) disk ≡ some json
      → open_volume crates path true volume_id password disk ≡ open_config crates path password json
  unfolding open_volume
  opened volume_id password json disk h = rw (h, open_volume) refl

  -- When a volume was created, and its file can be read, then the password opens it with the
  -- configuration and the keys of the creation; and another password, from which keys with another
  -- verification hash are derived, is refused as wrong.
  pub open_volume-create_volume :
      (dirs_work : Bool) (write : WriteResult) (d : Draws) (generated : Bytes × Bytes)
      (name : Option Bytes) (password : Bytes) (disk : Disk) (config : VolumeConfig)
      (keys : KeyHierarchy)
      → (create_volume crates path dirs_work write d generated name password disk).1
        ≡ ok (config, keys)
      → let disk' = (create_volume crates path dirs_work write d generated name password disk).0 in
        (open_volume crates path true config.volume_id password disk' ≡ ok (config, keys))
        × ((other hash' : Bytes) (keys' : KeyHierarchy)
            → derive_keys crates path other config ≡ ok keys'
            → compute_verification_hash crates keys' ≡ ok hash'
            → config.password_verification_hash ≢ some hash'
            → open_volume crates path true config.volume_id other disk' ≡ err decryption)
  open_volume-create_volume dirs_work write d generated name password disk config keys h =
      let (json, p, found) =
        create_volume-ok dirs_work write d generated name password disk config keys h in
      let disk' = (create_volume crates path dirs_work write d generated name password disk).0 in
      (
        opened config.volume_id password json disk' found
            ∙ open-Prepared password config json keys p,
        λ other hash' keys' derived hashed differs.
            opened config.volume_id other json disk' found
            ∙ open_other password other config json keys keys' hash' p derived hashed differs,
      )

  -- The keys of a volume that is created are those of its password.
  pub create_volume-derived :
      (dirs_work : Bool) (write : WriteResult) (d : Draws) (generated : Bytes × Bytes)
      (name : Option Bytes) (password : Bytes) (disk : Disk) (config : VolumeConfig)
      (keys : KeyHierarchy)
      → (create_volume crates path dirs_work write d generated name password disk).1
        ≡ ok (config, keys)
      → derive_keys crates path password config ≡ ok keys
  create_volume-derived dirs_work write d generated name password disk config keys h =
      (create_volume-ok dirs_work write d generated name password disk config keys h).1.derived
