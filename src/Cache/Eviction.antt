-- ===== src/Cache/Eviction.antt =====
-- The eviction loop of the block cache: it ends, makes room, and takes the least recently used.
use tgcryptfs.Crypto.Aead.{Bytes}
use tgcryptfs.Common.Dict.{
  Dict, lookup, remove, list_eq, nat_eq, list_beq_iff, lookup-remove, NoDup, All-lookup,
  length-remove,
}
use tgcryptfs.Cache.{
  sub_u64, CacheEntry, BlockCache, lru_entry, drop_entry, must_evict, evict_loop, evict_if_needed,
}
use tgcryptfs.Cache.Invariant.{IsConsistent, IsNamed, drop_entry-IsConsistent, size-remove}
use tgcryptfs.Common.{
  ℕ, zero, suc, ◌+◌, ◌≤◌, ◌<◌, ◌≡◌, refl, ◌⊎◌, inl, inr, true, false, none, some, [], ◌∷◌, arith,
  ltb, Bool-cases, Option-cases, u64_mod, add_u64, ok, length, is_empty,
}

lru_entry-none : (m : Dict Bytes CacheEntry) → lru_entry m ≡ none → m ≡ []
unfolding lru_entry
lru_entry-none [] h = refl
lru_entry-none ((k, v) ∷ m) h = ground arith

-- The least recently used entry is an entry, and no entry was used before it.
pub record IsLru (m : Dict Bytes CacheEntry) (k : Bytes) (e : CacheEntry) : Type 0 where
  pub present : lookup k m ≡ some e
  pub least : (j : Bytes) (w : CacheEntry) → lookup j m ≡ some w → e.access_order ≤ w.access_order

lru_entry-IsLru :
    (m : Dict Bytes CacheEntry) (k : Bytes) (e : CacheEntry)
    → NoDup m
    → lru_entry m ≡ some (k, e)
    → IsLru m k e
unfolding lru_entry
lru_entry-IsLru [] k e d h = absurd (ground arith)
lru_entry-IsLru ((i, v) ∷ m) k e (a, d) h = elim (Option-cases (lru_entry m)) [
  | inl empty ↦ record {
    present = ground (arith, list_beq_iff i k);
    least = λ j w at. ground (arith, lru_entry-none m empty);
  }
  | inr ((j, w), found) ↦
      let r = lru_entry-IsLru m j w d found in
      record {
        present = ground (arith, list_beq_iff i k, list_beq_iff i j, r.present);
        least = λ j' w' at. ground (arith, r.least j' w');
      }
]

-- What eviction does between two states, to make room for `needed` bytes.
pub record Evicts (needed : ℕ) (c c' : BlockCache) : Type 0 where
  pub consistent : IsConsistent c'
  pub room : (c'.current_size + needed ≤ c'.config.max_size) ⊎ (c'.entries ≡ [])
  pub config : c'.config ≡ c.config
  pub same_key : c'.cache_key ≡ c.cache_key
  pub counter : c'.access_counter ≡ c.access_counter
  pub smaller : c'.current_size ≤ c.current_size
  pub kept :
      (k : Bytes) (e : CacheEntry) → lookup k c'.entries ≡ some e → lookup k c.entries ≡ some e
  pub files :
      (k : Bytes) (e : CacheEntry)
      → lookup k c'.entries ≡ some e
      → lookup k c'.disk ≡ lookup k c.disk
  pub lru :
      (k j : Bytes) (e w : CacheEntry)
      → lookup k c.entries ≡ some e
      → lookup k c'.entries ≡ none
      → lookup j c'.entries ≡ some w
      → e.access_order ≤ w.access_order

Evicts-refl :
    (needed : ℕ) (c : BlockCache)
    → IsConsistent c
    → (c.current_size + needed ≤ c.config.max_size) ⊎ (c.entries ≡ [])
    → Evicts needed c c
Evicts-refl needed c i room = record {
  consistent = i;
  room = room;
  config = refl;
  same_key = refl;
  counter = refl;
  smaller = omega arith;
  kept = λ k e h. h;
  files = λ k e h. refl;
  lru = λ k j e w here gone at. absurd (ground arith);
}

-- The state without an entry that is there.
abbrev dropped : Bytes → CacheEntry → BlockCache → BlockCache
dropped key entry c = record c {
  inner = record c.inner {
    entries = remove key c.entries;
    current_size = sub_u64 c.current_size entry.size;
  };
  disk = remove key c.disk;
}

drop_entry-eq_dropped :
    (key : Bytes) (entry : CacheEntry) (c : BlockCache)
    → IsConsistent c
    → lookup key c.entries ≡ some entry
    → drop_entry key c ≡ dropped key entry c
unfolding drop_entry
drop_entry-eq_dropped key entry c i found =
    let same = All-lookup (IsNamed c.access_counter) key c.entries entry i.named found in
    rw (found, drop_entry, same.0)

-- The removal of the least recently used entry, and then the rest of the loop.
Evicts-step :
    (needed : ℕ) (key : Bytes) (entry : CacheEntry) (c c' : BlockCache)
    → IsConsistent c
    → IsLru c.entries key entry
    → Evicts needed (dropped key entry c) c'
    → Evicts needed c c'
Evicts-step needed key entry c c' i least v = record {
  consistent = v.consistent;
  room = v.room;
  config = v.config;
  same_key = v.same_key;
  counter = v.counter;
  smaller =
      let t = size-remove key c.entries entry i.distinct least.present in
      omega (arith, v.smaller, i.total, i.fits);
  kept = λ k e h. ground (arith, v.kept k e h, lookup-remove key k c.entries);
  files = λ k e h. ground (
    arith,
    v.files k e h,
    v.kept k e h,
    lookup-remove key k c.entries,
    lookup-remove key k c.disk,
  );
  lru = λ k j e w here gone at. ground (
    arith,
    v.lru k j e w,
    v.kept j w at,
    lookup-remove key k c.entries,
    lookup-remove key j c.entries,
    list_beq_iff key k,
    least.present,
    least.least j w,
  );
}

is_empty-true : (m : Dict Bytes CacheEntry) → is_empty m ≡ true → m ≡ []
is_empty-true [] h = refl
is_empty-true (x ∷ m) h = absurd (ground arith)

stop_room :
    (needed : ℕ) (c : BlockCache)
    → c.current_size + needed < u64_mod
    → must_evict c needed ≡ false
    → (c.current_size + needed ≤ c.config.max_size) ⊎ (c.entries ≡ [])
stop_room needed c small stop =
    elim (Bool-cases (ltb c.config.max_size (add_u64 c.current_size needed))) [
      | inl over ↦ inr (is_empty-true c.entries (ground arith))
      | inr fits ↦ inl (ground arith)
    ]

go_on_nonempty : (needed : ℕ) (c : BlockCache) → must_evict c needed ≡ true → c.entries ≡ [] → ⊥
go_on_nonempty needed c on empty = ground arith

evict_loop_lem :
    (fuel needed : ℕ) (c : BlockCache)
    → length c.entries < fuel
    → c.current_size + needed < u64_mod
    → IsConsistent c
    → (c' : BlockCache) × (evict_loop fuel needed c ≡ ok c') × Evicts needed c c'
unfolding evict_loop
evict_loop_lem zero needed c more small i = absurd (omega arith)
evict_loop_lem (suc fuel) needed c more small i = elim (Bool-cases (must_evict c needed)) [
  | inr stop ↦ (c, rw (stop, evict_loop), Evicts-refl needed c i (stop_room needed c small stop))
  | inl on ↦ elim (Option-cases (lru_entry c.entries)) [
    | inl empty ↦ absurd (go_on_nonempty needed c on (lru_entry-none c.entries empty))
    | inr ((key, entry), found) ↦
        let least = lru_entry-IsLru c.entries key entry i.distinct found in
        let same = drop_entry-eq_dropped key entry c i least.present in
        let j = drop_entry-IsConsistent key c i in
        let (c', e, v) =
          evict_loop_lem fuel needed (drop_entry key c)
            (rw same (omega (arith, length-remove key c.entries entry i.distinct least.present)))
            (rw same (
              omega
                (arith, i.total, i.fits, size-remove key c.entries entry i.distinct least.present)))
            j in
        (c', rw (on, found, evict_loop) e, Evicts-step needed key entry c c' i least (rw same at v))
  ]
]

-- On a consistent cache, where the size and the bytes that are needed do not pass 2^64 together,
-- eviction ends without an error, and `Evicts` tells the state that it leaves: room for the bytes
-- or an empty index, the same configuration and counter, no entry and no file changed that is kept,
-- and no entry kept that was used before one that is gone.
pub evict_if_needed-Evicts :
    (needed : ℕ) (c : BlockCache)
    → c.current_size + needed < u64_mod
    → IsConsistent c
    → (c' : BlockCache) × (evict_if_needed needed c ≡ ok c') × Evicts needed c c'
unfolding evict_if_needed
evict_if_needed-Evicts needed c small i =
    evict_loop_lem (suc (length c.entries)) needed c (omega arith) small i
