-- ===== src/Tests/Services.antt =====
-- A volume that the service creates and opens.
use tgcryptfs.Crypto.Aead.{Bytes}
use tgcryptfs.Common.Dict.{list_eq, nat_eq}
use tgcryptfs.Api.{ApiError, crypto}
use tgcryptfs.Api.Volumes.{
  CreateVolumeResponse, respond, create_service, open_service, create_service-open_service,
}
use tgcryptfs.Sentence.{Word, SentenceError, encode_ref, decode_ref, build_reverse_lookup}
use tgcryptfs.Sentence.RoundTrip.{IsWordlist, decode_ref-encode_ref}
use tgcryptfs.Volume.{
  KeyHierarchy, derive_root_key, derive_hierarchy, derive_keys, prepare, compute_verification_hash,
  create_volume, open_volume,
}
use tgcryptfs.Volume.Config.{VolumeConfig, Argon2Params, new_config}
use tgcryptfs.Tests.ShareCodec.{toy_answered}
use tgcryptfs.Tests.Sentences.{lists, numbered-IsWordlist}
use tgcryptfs.Tests.Volumes.{crates, draws, total}
use tgcryptfs.Common.Writes.{all_written}
use tgcryptfs.Common.{
  ℕ, zero, suc, ◌+◌, ◌%◌, ◌≤◌, ◌<◌, ◌≡◌, refl, ap, ◌≢◌, true, none, some, List, [], ◌∷◌, map, arith,
  Result, ok, err, length, replicate, All,
}

abbrev password : Bytes
password = 1 ∷ 1 ∷ 1 ∷ 1 ∷ 1 ∷ 1 ∷ 1 ∷ 1 ∷ []

lists-IsWordlist : All IsWordlist lists
lists-IsWordlist =
    (numbered-IsWordlist, (numbered-IsWordlist, (numbered-IsWordlist, (numbered-IsWordlist, tt))))

-- The sum of the password and the salt is 40.
abbrev encoded :
    (words : List Word) × (encode_ref (replicate 32 40) lists ≡ ok words)
    × (length words ≡ 22)
    × (decode_ref words (map build_reverse_lookup lists) ≡ ok (replicate 32 40))
encoded = decode_ref-encode_ref (replicate 32 40) lists refl (omega arith) refl lists-IsWordlist

abbrev response : CreateVolumeResponse
response = record { volume_id = 6 ∷ []; display_name = 7 ∷ []; sentence_ref = encoded.0 }

replicated : (n b : ℕ) → b < 256 → All (λ b. b < 256) (replicate n b)
replicated zero b h = tt
replicated (suc n) b h = (h, replicated n b h)

are_bytes :
    (word salt out : Bytes) (params : Argon2Params)
    → crates.argon2 word salt params ≡ some out
    → All (λ b. b < 256) out
are_bytes word salt out params h =
    let b : ℕ = (total word + total salt) % 256 in
    rw (toy_answered (replicate params.output_len b) out h)
      (replicated params.output_len b (omega arith))

-- What the service answers on what `encode_ref` gives.
abbrev answer : Result SentenceError (List Word) → Result ApiError CreateVolumeResponse
answer r = elim r [
  | err _ ↦ err crypto
  | ok sentence ↦ ok (record { volume_id = 6 ∷ []; display_name = 7 ∷ []; sentence_ref = sentence })
]

created :
    (create_service crates
      (λ id. id)
      lists
      true
      all_written
      draws
      (7 ∷ [], 8 ∷ [])
      none
      password
      []).1
    ≡ ok response
unfolding create_service respond create_volume prepare derive_keys derive_root_key derive_hierarchy
    compute_verification_hash new_config
created = ap answer encoded.1

create_service-open_service_example :
    let disk' =
      (create_service crates
        (λ id. id)
        lists
        true
        all_written
        draws
        (7 ∷ [], 8 ∷ [])
        none
        password
        []).0 in
    (8 ≤ 8)
    × ((config : VolumeConfig) × (keys : KeyHierarchy) × (decode_ref encoded.0
            (map build_reverse_lookup lists)
          ≡ ok keys.root)
        × (open_volume crates (λ id. id) true (6 ∷ []) password disk' ≡ ok (config, keys))
        × (open_service crates (λ id. id) true (6 ∷ []) password disk' ≡ ok tt)
        × ((other hash' : Bytes) (keys' : KeyHierarchy)
            → derive_keys crates (λ id. id) other config ≡ ok keys'
            → compute_verification_hash crates keys' ≡ ok hash'
            → config.password_verification_hash ≢ some hash'
            → open_service crates (λ id. id) true (6 ∷ []) other disk' ≡ err crypto))
create_service-open_service_example =
    create_service-open_service crates (λ id. id) lists true all_written draws (7 ∷ [], 8 ∷ []) none
      password [] response refl lists-IsWordlist are_bytes created
