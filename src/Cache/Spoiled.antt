-- ===== src/Cache/Spoiled.antt =====
-- A consistent cache after a write over one of its files that failed half-way.
use tgcryptfs.Crypto.Aead.{Bytes}
use tgcryptfs.Common.Dict.{
  list_beq, lookup, insert, list_eq, nat_eq, lookup-insert, NoDup, sum_by, list_beq_iff,
  contains_key,
}
use tgcryptfs.Cache.{CacheEntry, BlockCache}
use tgcryptfs.Cache.Invariant.{IsNamed, IsConsistent}
use tgcryptfs.Common.{
  ◌<◌, ◌≡◌, refl, ◌⊎◌, inl, inr, true, false, some, arith, Bool-cases, u64_mod, length, All,
  Option-cases,
}

-- The invariant, which says nothing about the file of one block.
pub record IsConsistentBut (key : Bytes) (c : BlockCache) : Type 0 where
  pub distinct : NoDup c.entries
  pub total : c.current_size ≡ sum_by (λ e. e.size) c.entries
  pub fits : c.current_size < u64_mod
  pub named : All (IsNamed c.access_counter) c.entries
  pub stored :
      (k : Bytes) (e : CacheEntry)
      → list_beq key k ≡ false
      → lookup k c.entries ≡ some e
      → (file : Bytes) × (lookup k c.disk ≡ some file) × (length file ≡ e.size)

module _ (key file : Bytes) (c : BlockCache) (i : IsConsistent c) where
  abbrev spoiled : BlockCache
  spoiled = record c { disk = insert key file c.disk }

  others :
      (k : Bytes) (e : CacheEntry)
      → list_beq key k ≡ false
      → lookup k c.entries ≡ some e
      → (f : Bytes) × (lookup k spoiled.disk ≡ some f) × (length f ≡ e.size)
  others k e other h =
      let (f, at, n) = i.stored k e h in (f, ground (arith, lookup-insert key k file c.disk), n)

  -- The file of a block that is not in the index is nobody's.
  pub spoiled-IsConsistent :
      IsConsistent spoiled ⊎ (contains_key key spoiled.entries ≡ true) × IsConsistentBut key spoiled
  spoiled-IsConsistent = elim (Option-cases (lookup key c.entries)) [
    | inr (entry, found) ↦ inr (
      rw (found, contains_key) refl,
      record {
        distinct = i.distinct;
        total = i.total;
        fits = i.fits;
        named = i.named;
        stored = others;
      },
    )
    | inl absent ↦ inl (record {
      distinct = i.distinct;
      total = i.total;
      fits = i.fits;
      named = i.named;
      stored = λ k e h. elim (Bool-cases (list_beq key k)) [
        | inr other ↦ others k e other h
        | inl same ↦ absurd (ground (arith, list_beq_iff key k))
      ];
    })
  ]
