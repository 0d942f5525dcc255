-- ===== src/Cache/Writes.antt =====
-- `put` of the block cache: the invariant, the bound on its size, and the state that it leaves.
use tgcryptfs.Crypto.Aead.{Bytes, Cipher, nonce_size, encrypt, length-encrypt}
use tgcryptfs.Common.Dict.{insert, list_eq, nat_eq, sum_by}
use tgcryptfs.Cache.{
  CacheConfig, BlockCache, CacheError, contains, io, cache_aad, record_entry, data_to_write, put,
}
use tgcryptfs.Common.Writes.{WriteResult, all_written, not_opened, cut_short}
use tgcryptfs.Cache.Invariant.{record_entry-size, IsConsistent, record_entry-IsConsistent}
use tgcryptfs.Cache.Spoiled.{IsConsistentBut, spoiled-IsConsistent}
use tgcryptfs.Cache.Eviction.{Evicts, evict_if_needed-Evicts}
use tgcryptfs.Common.{
  Result-cases, ℕ, ◌+◌, ◌≤◌, ◌<◌, max, ◌≡◌, refl, ap, ◌⊎◌, inl, inr, true, [], arith, Bool-cases,
  u64_mod, ok, err, length, Result, take,
}

-- The state after a write that works.
abbrev pub written : Bytes → Bytes → BlockCache → BlockCache
written rid_hex stored c = record c {
  inner = record_entry rid_hex (length stored) c.inner;
  disk = insert rid_hex stored c.disk;
}

-- What `put` answers and leaves, by the way its write ends.
abbrev pub after_write :
    WriteResult → Bytes → Bytes → BlockCache → BlockCache × Result CacheError (Unit {0})
after_write all_written rid_hex stored c = (written rid_hex stored c, ok tt)
after_write not_opened rid_hex stored c = (c, err io)
after_write (cut_short n) rid_hex stored c =
    (record c { disk = insert rid_hex (take n stored) c.disk }, err io)

size_of_room :
    (needed : ℕ) (c c' : BlockCache)
    → Evicts needed c c'
    → c'.current_size + needed ≤ max c.config.max_size needed
size_of_room needed c c' v = go v.room
  where
    go :
        (c'.current_size + needed ≤ c'.config.max_size) ⊎ (c'.entries ≡ [])
        → c'.current_size + needed ≤ max c.config.max_size needed
    go (inl fits) = omega (arith, ap (λ (g : CacheConfig). g.max_size) v.config)
    go (inr empty) =
        let zero_size : sum_by (λ e. e.size) c'.entries ≡ 0 = rw empty refl in
        omega (arith, v.consistent.total)

module _ (cipher : Cipher) (hex_encode : Bytes → Bytes) (nonce : Bytes) (c : BlockCache)
    (rid contents : Bytes) where
  -- What is stored has at most 40 bytes more than the contents.
  pub length-data_to_write :
      (stored : Bytes)
      → length nonce ≡ nonce_size
      → data_to_write cipher c nonce (hex_encode rid) contents ≡ ok stored
      → length stored ≤ length contents + 40
  unfolding data_to_write
  length-data_to_write stored sized h = elim (Bool-cases c.config.encrypt_at_rest) [
    | inr plain ↦ ground arith
    | inl sealed ↦
        elim (Result-cases
          (encrypt cipher nonce c.cache_key contents (cache_aad (hex_encode rid)))) [
            | inl (out, e) ↦ ground (
              arith,
              length-encrypt cipher nonce c.cache_key contents (cache_aad (hex_encode rid)) out e,
            )
            | inr (x, e) ↦ absurd (ground arith)
          ]
  ]

  -- The invariant holds; or the write was cut short over the file of a block that is still in the
  -- index, and the invariant holds but for that file.
  abbrev pub Keeps : WriteResult → BlockCache → Type 0
  Keeps write after =
      IsConsistent after
      ⊎ ((n : ℕ) × (write ≡ cut_short n)
          × (contains hex_encode after rid ≡ true)
          × IsConsistentBut (hex_encode rid) after)

  put_stored :
      (write : WriteResult) (stored : Bytes)
      → data_to_write cipher c nonce (hex_encode rid) contents ≡ ok stored
      → c.current_size + length stored < u64_mod
      → IsConsistent c
      → (c' : BlockCache) × Evicts (length stored) c c'
        × (put cipher hex_encode write nonce c rid contents
            ≡ after_write write (hex_encode rid) stored c')
  unfolding put
  put_stored write stored h small i =
      let (c', e, v) = evict_if_needed-Evicts (length stored) c small i in
      (c', v, rw (h, put) (rw (e, put) (go write c')))
    where
      go :
          (w : WriteResult) (c' : BlockCache)
          → (elim w as (λ x. BlockCache × Result CacheError (Unit {0})) [
            | all_written ↦ (written (hex_encode rid) stored c', ok tt)
            | not_opened ↦ (c', err io)
            | cut_short n ↦
                (record c' { disk = insert (hex_encode rid) (take n stored) c'.disk }, err io)
          ])
            ≡ after_write w (hex_encode rid) stored c'
      go all_written c' = refl
      go not_opened c' = refl
      go (cut_short n) c' = refl

  module _ (stored : Bytes)
      (made : data_to_write cipher c nonce (hex_encode rid) contents ≡ ok stored)
      (small : c.current_size + length stored < u64_mod) (count : c.access_counter + 1 < u64_mod)
      (i : IsConsistent c) where
    pub put_ok :
        (c' : BlockCache) × Evicts (length stored) c c'
        × (put cipher hex_encode all_written nonce c rid contents
            ≡ (written (hex_encode rid) stored c', ok tt))
    put_ok = put_stored all_written stored made small i

    put_ok-Keeps :
        (write : WriteResult) → Keeps write (put cipher hex_encode write nonce c rid contents).0
    unfolding contains
    put_ok-Keeps all_written =
        let (c', v, e) = put_ok in
        rw e (
          inl (
            record_entry-IsConsistent (hex_encode rid) stored c' (omega (arith, v.smaller))
              (omega (arith, v.counter)) v.consistent))
    put_ok-Keeps not_opened =
        let (c', v, e) = put_stored not_opened stored made small i in rw e (inl v.consistent)
    put_ok-Keeps (cut_short n) =
        let (c', v, e) = put_stored (cut_short n) stored made small i in
        rw e (elim (spoiled-IsConsistent (hex_encode rid) (take n stored) c' v.consistent) [
          | inl keeps ↦ inl keeps
          | inr (indexed, others) ↦ inr (n, refl, indexed, others)
        ])

    put_ok-size :
        (put cipher hex_encode all_written nonce c rid contents).0.current_size
        ≤ max c.config.max_size (length stored)
    put_ok-size =
        let (c', v, e) = put_ok in
        let grown =
          record_entry-size (hex_encode rid) (length stored) c' (omega (arith, v.smaller))
            v.consistent in
        rw e (omega (arith, grown, size_of_room (length stored) c c' v))

module _ (cipher : Cipher) (hex_encode : Bytes → Bytes) (nonce : Bytes) (c : BlockCache)
    (rid contents : Bytes) where
  -- With a 24-byte nonce, and if neither the size with the contents and 40 bytes nor the counter
  -- passes 2^64, `put` on a consistent cache leaves a consistent cache, however the write ends, with
  -- or without encryption, but in one case: the write has opened the file and then failed, and the
  -- block is still in the index from before. Then all but the file of that block is consistent.
  pub put-IsConsistent :
      (write : WriteResult)
      → length nonce ≡ nonce_size
      → c.current_size + length contents + 40 < u64_mod
      → c.access_counter + 1 < u64_mod
      → IsConsistent c
      → Keeps cipher hex_encode nonce c rid contents write
          (put cipher hex_encode write nonce c rid contents).0
  put-IsConsistent write sized small count i =
      elim (Result-cases (data_to_write cipher c nonce (hex_encode rid) contents)) [
        | inl (stored, made) ↦
            let n = length-data_to_write cipher hex_encode nonce c rid contents stored sized made in
            put_ok-Keeps cipher hex_encode nonce c rid contents stored made (omega arith) count i
              write
        | inr (x, failed) ↦ unfold put in rw (failed, put) (inl i)
      ]

  -- What a `put` that succeeds has stored.
  pub put-stored :
      (put cipher hex_encode all_written nonce c rid contents).1 ≡ ok tt
      → (stored : Bytes) × (data_to_write cipher c nonce (hex_encode rid) contents ≡ ok stored)
  unfolding put
  put-stored h = elim (Result-cases (data_to_write cipher c nonce (hex_encode rid) contents)) [
    | inl (stored, made) ↦ (stored, made)
    | inr (x, failed) ↦ absurd (ground arith)
  ]

  -- After a `put` that succeeds, under the same conditions, the size is at most the greater of
  -- `max_size` and the 40 bytes and the contents that were put: a block larger than the whole cache
  -- is kept alone.
  pub put-size :
      length nonce ≡ nonce_size
      → c.current_size + length contents + 40 < u64_mod
      → c.access_counter + 1 < u64_mod
      → IsConsistent c
      → (put cipher hex_encode all_written nonce c rid contents).1 ≡ ok tt
      → (put cipher hex_encode all_written nonce c rid contents).0.current_size
        ≤ max c.config.max_size (length contents + 40)
  put-size sized small count i h =
      let (stored, made) = put-stored h in
      let n = length-data_to_write cipher hex_encode nonce c rid contents stored sized made in
      omega (
        arith,
        put_ok-size cipher hex_encode nonce c rid contents stored made (omega arith) count i,
      )
