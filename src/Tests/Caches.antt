-- ===== src/Tests/Caches.antt =====
-- A cache of three bytes without encryption, and one with it, over the toy cipher.
use tgcryptfs.Common.Dict.{list_eq, nat_eq}
use tgcryptfs.Crypto.Aead.{Bytes}
use tgcryptfs.Cache.{
  CacheConfig, BlockCache, io, new, lru_entry, drop_entry, evict_if_needed, record_entry,
  data_to_write, put, read_file, get, contains,
}
use tgcryptfs.Common.Writes.{all_written, cut_short}
use tgcryptfs.Cache.Invariant.{IsConsistent, new-IsConsistent}
use tgcryptfs.Cache.Eviction.{Evicts, evict_if_needed-Evicts}
use tgcryptfs.Cache.Writes.{Keeps, put-IsConsistent, put-size}
use tgcryptfs.Cache.Reads.{get-put_self, get-put_ne}
use tgcryptfs.Tests.Toy.{toy, nonce24}
use tgcryptfs.Common.{◌≤◌, max, ◌≡◌, refl, true, false, [], ◌∷◌, arith, ok, err, inl, inr}

abbrev hex : Bytes → Bytes
hex bs = bs

abbrev plain : CacheConfig
plain = record { max_size = 3; encrypt_at_rest = false }

abbrev fresh : BlockCache
fresh = new plain []

abbrev rid_a : Bytes
rid_a = 1 ∷ []

abbrev rid_b : Bytes
rid_b = 2 ∷ []

abbrev rid_c : Bytes
rid_c = 3 ∷ []

abbrev put_plain : BlockCache → Bytes → Bytes → BlockCache
put_plain c rid contents = (put toy hex all_written nonce24 c rid contents).0

abbrev touched : BlockCache
touched = (get toy hex true (put_plain (put_plain fresh rid_a (10 ∷ [])) rid_b (20 ∷ [])) rid_a).0

-- The third block makes room by the least recently used one, which is not the one that was read.
evicts_b :
    (contains hex (put_plain touched rid_c (30 ∷ 31 ∷ [])) rid_a ≡ true)
    × (contains hex (put_plain touched rid_c (30 ∷ 31 ∷ [])) rid_b ≡ false)
unfolding new put get contains lru_entry drop_entry evict_if_needed record_entry data_to_write
    read_file
evicts_b = (refl, refl)

fresh-IsConsistent : IsConsistent fresh
fresh-IsConsistent = new-IsConsistent plain []

abbrev first : BlockCache
first = put_plain fresh rid_a (10 ∷ [])

first-IsConsistent : IsConsistent first
unfolding new
first-IsConsistent =
    elim (put-IsConsistent toy hex nonce24 fresh rid_a (10 ∷ []) all_written refl (omega arith)
      (omega arith) fresh-IsConsistent) [
        | inl keeps ↦ keeps
        | inr (n, cut, _, _) ↦ absurd (ground arith)
      ]

-- A second write of the same block that stops after no byte.
put-IsConsistent_example :
    Keeps toy hex nonce24 first rid_a
      (20 ∷ [])
      (cut_short 0)
      (put toy hex (cut_short 0) nonce24 first rid_a (20 ∷ [])).0
unfolding new put evict_if_needed record_entry data_to_write
put-IsConsistent_example =
    put-IsConsistent toy hex nonce24 first rid_a (20 ∷ []) (cut_short 0) refl (omega arith)
      (omega arith) first-IsConsistent

-- The cache then answers no bytes for the block, without an error.
answers_cut_file :
    let after = put toy hex (cut_short 0) nonce24 first rid_a (20 ∷ []) in
    (after.1 ≡ err io) × ((get toy hex true after.0 rid_a).1 ≡ ok [])
unfolding new put get read_file evict_if_needed record_entry data_to_write
answers_cut_file = (refl, refl)

evict_if_needed-Evicts_example :
    (c : BlockCache) × (evict_if_needed 3 first ≡ ok c) × Evicts 3 first c
unfolding new put evict_if_needed record_entry data_to_write
evict_if_needed-Evicts_example = evict_if_needed-Evicts 3 first (omega arith) first-IsConsistent

first_put_ok : (put toy hex all_written nonce24 fresh rid_a (10 ∷ [])).1 ≡ ok tt
unfolding new put evict_if_needed record_entry data_to_write
first_put_ok = refl

put-size_example : (put toy hex all_written nonce24 fresh rid_a (10 ∷ [])).0.current_size ≤ max 3 41
unfolding new
put-size_example =
    put-size toy hex nonce24 fresh rid_a (10 ∷ []) refl (omega arith) (omega arith)
      fresh-IsConsistent first_put_ok

get-put_self_example : (get toy hex true first rid_a).1 ≡ ok (10 ∷ [])
unfolding new
get-put_self_example =
    get-put_self toy hex nonce24 fresh rid_a (10 ∷ []) refl (omega arith) (omega arith)
      fresh-IsConsistent first_put_ok

second_put_ok : (put toy hex all_written nonce24 first rid_b (20 ∷ [])).1 ≡ ok tt
unfolding new put evict_if_needed record_entry data_to_write
second_put_ok = refl

a_still_there : contains hex (put toy hex all_written nonce24 first rid_b (20 ∷ [])).0 rid_a ≡ true
unfolding new put contains evict_if_needed record_entry data_to_write
a_still_there = refl

get-put_ne_example :
    (contains hex first rid_a ≡ true)
    × ((get toy hex true (put toy hex all_written nonce24 first rid_b (20 ∷ [])).0 rid_a).1
        ≡ (get toy hex true first rid_a).1)
unfolding new put evict_if_needed record_entry data_to_write
get-put_ne_example =
    get-put_ne toy hex nonce24 first rid_b (20 ∷ []) rid_a refl (omega arith) (omega arith)
      first-IsConsistent second_put_ok (λ e. absurd (ground arith)) a_still_there
