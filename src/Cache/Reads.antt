-- ===== src/Cache/Reads.antt =====
-- What `get` of the block cache returns after a `put`.
use tgcryptfs.Crypto.Aead.{Bytes, Cipher, nonce_size, decrypt-encrypt}
use tgcryptfs.Common.Dict.{lookup, insert, list_eq, nat_eq, list_beq, list_beq_iff, lookup-insert}
use tgcryptfs.Cache.{
  cache_aad, CacheEntry, cache_aad, encrypt, contains_key, CacheConfig, BlockCache, record_entry,
  data_to_write, put, read_file, get, contains,
}
use tgcryptfs.Common.Writes.{all_written}
use tgcryptfs.Cache.Invariant.{IsConsistent}
use tgcryptfs.Cache.Eviction.{Evicts}
use tgcryptfs.Cache.Writes.{written, length-data_to_write, put_ok, put-stored}
use tgcryptfs.Common.{
  Result-cases, ◌+◌, ◌<◌, ◌≡◌, sym, ap, ◌∙◌, ◌≢◌, inl, inr, Bool, true, some, arith, if◌then◌else◌,
  Bool-cases, Option-cases, u64_mod, add_u64, ok, length,
}

get_lem :
    (cipher : Cipher) (hex_encode : Bytes → Bytes) (c : BlockCache) (rid : Bytes) (read_ok : Bool)
    → contains_key (hex_encode rid) c.entries ≡ true
    → (get cipher hex_encode read_ok c rid).1 ≡ read_file cipher read_ok c (hex_encode rid)
unfolding get
get_lem cipher hex_encode c rid read_ok h = ground arith

contains_written :
    (rid_hex stored : Bytes) (c : BlockCache)
    → contains_key rid_hex (written rid_hex stored c).entries ≡ true
unfolding record_entry
contains_written rid_hex stored c = ground (arith, list_beq_iff rid_hex rid_hex)

-- A read depends on the file, the configuration and the key.
same_read :
    (cipher : Cipher) (rid_hex : Bytes) (c d : BlockCache)
    → lookup rid_hex c.disk ≡ lookup rid_hex d.disk
    → c.config.encrypt_at_rest ≡ d.config.encrypt_at_rest
    → c.cache_key ≡ d.cache_key
    → read_file cipher true c rid_hex ≡ read_file cipher true d rid_hex
unfolding read_file
same_read cipher rid_hex c d e f g = ground arith

abbrev written_entry : Bytes → Bytes → BlockCache → CacheEntry
written_entry rid_hex stored c = record {
  rid_hex = rid_hex;
  size = length stored;
  access_order = add_u64 c.access_counter 1;
}

-- What a write leaves of another name.
written_ne :
    (cipher : Cipher) (rid_hex other stored : Bytes) (c c' : BlockCache)
    → other ≢ rid_hex
    → Evicts (length stored) c c'
    → contains_key other (written rid_hex stored c').entries ≡ true
    → (contains_key other c.entries ≡ true)
      × (read_file cipher true (written rid_hex stored c') other ≡ read_file cipher true c other)
unfolding record_entry
written_ne cipher rid_hex other stored c c' ne v there =
    elim (Option-cases (lookup other c'.entries)) [
      | inl gone ↦ absurd (ground (arith, list_beq_iff rid_hex other, kept_entries, gone))
      | inr (e, here) ↦
          let on_disk : lookup other (insert rid_hex stored c'.disk) ≡ lookup other c.disk =
            lookup-insert rid_hex other stored c'.disk
            ∙ ground (arith, list_beq_iff rid_hex other, v.files other e here) in
          (
            ground (arith, v.kept other e here),
            same_read cipher other (written rid_hex stored c') c on_disk
                (ap (λ (g : CacheConfig). g.encrypt_at_rest) v.config) v.same_key,
          )
    ]
  where
    kept_entries : lookup other (written rid_hex stored c').entries ≡ (
        if list_beq rid_hex other
        then some (written_entry rid_hex stored c')
        else lookup other c'.entries)
    kept_entries = lookup-insert rid_hex other (written_entry rid_hex stored c') c'.entries

-- The file that `put` has written reads as the contents.
module _ (cipher : Cipher) (nonce rid_hex contents stored : Bytes) (c c' : BlockCache) where
  stored_reads :
      length nonce ≡ nonce_size
      → data_to_write cipher c nonce rid_hex contents ≡ ok stored
      → Evicts (length stored) c c'
      → read_file cipher true (written rid_hex stored c') rid_hex ≡ ok contents
  unfolding read_file data_to_write
  stored_reads sized made v =
      let at : lookup rid_hex (insert rid_hex stored c'.disk) ≡ some stored =
        ground (arith, list_beq_iff rid_hex rid_hex) in
      let same = ap (λ (g : CacheConfig). g.encrypt_at_rest) v.config in
      elim (Bool-cases c.config.encrypt_at_rest) [
        | inr plain ↦ rw (at, read_file) (ground (arith, same))
        | inl sealed ↦
            elim (Result-cases (encrypt cipher nonce c.cache_key contents (cache_aad rid_hex))) [
              | inr (x, failed) ↦ absurd (ground arith)
              | inl (out, made_out) ↦
                  let opened =
                    decrypt-encrypt cipher nonce c.cache_key contents (cache_aad rid_hex) out sized
                      made_out in
                  let is_out : stored ≡ out = ground arith in
                  rw (at, read_file) (ground (arith, same, v.same_key, opened, is_out))
            ]
      ]

module _ (cipher : Cipher) (hex_encode : Bytes → Bytes) (nonce : Bytes) (c : BlockCache)
    (rid contents : Bytes) where
  -- With a 24-byte nonce, and if neither the size with the contents and 40 bytes nor the counter
  -- passes 2^64, `get` after a `put` that succeeded on a consistent cache returns the contents that
  -- were put, with or without encryption, if the file can be read.
  pub get-put_self :
      length nonce ≡ nonce_size
      → c.current_size + length contents + 40 < u64_mod
      → c.access_counter + 1 < u64_mod
      → IsConsistent c
      → (put cipher hex_encode all_written nonce c rid contents).1 ≡ ok tt
      → (get cipher hex_encode true
          (put cipher hex_encode all_written nonce c rid contents).0
          rid).1
        ≡ ok contents
  get-put_self sized small count i h =
      let (stored, made) = put-stored cipher hex_encode nonce c rid contents h in
      let n = length-data_to_write cipher hex_encode nonce c rid contents stored sized made in
      let (c', v, e) =
        put_ok cipher hex_encode nonce c rid contents stored made (omega arith) count i in
      rw e (
        get_lem cipher hex_encode (written (hex_encode rid) stored c') rid true
          (contains_written (hex_encode rid) stored c')
        ∙ stored_reads cipher nonce (hex_encode rid) contents stored c c' sized made v)

  -- Under the same conditions, a block with another name that the cache still holds after the
  -- `put` was there before it, and its file reads as it did.
  pub get-put_ne :
      (other : Bytes)
      → length nonce ≡ nonce_size
      → c.current_size + length contents + 40 < u64_mod
      → c.access_counter + 1 < u64_mod
      → IsConsistent c
      → (put cipher hex_encode all_written nonce c rid contents).1 ≡ ok tt
      → hex_encode other ≢ hex_encode rid
      → contains hex_encode (put cipher hex_encode all_written nonce c rid contents).0 other ≡ true
      → (contains hex_encode c other ≡ true)
        × ((get cipher hex_encode true
              (put cipher hex_encode all_written nonce c rid contents).0
              other).1
            ≡ (get cipher hex_encode true c other).1)
  unfolding contains
  get-put_ne other sized small count i h ne there =
      let (stored, made) = put-stored cipher hex_encode nonce c rid contents h in
      let n = length-data_to_write cipher hex_encode nonce c rid contents stored sized made in
      let (c', v, e) =
        put_ok cipher hex_encode nonce c rid contents stored made (omega arith) count i in
      let (before, same) =
        written_ne cipher (hex_encode rid) (hex_encode other) stored c c' ne v (rw e at there) in
      (
        before,
        rw e (
            get_lem cipher hex_encode (written (hex_encode rid) stored c') other true
              (rw e at there)
            ∙ same
            ∙ sym (get_lem cipher hex_encode c other true before)),
      )
