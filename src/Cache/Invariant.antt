-- ===== src/Cache/Invariant.antt =====
-- The invariant of the block cache, and that every operation keeps it.
use tgcryptfs.Crypto.Aead.{Bytes, Cipher}
use tgcryptfs.Common.Dict.{
  list_beq, Dict, lookup, insert, remove, list_eq, nat_eq, lookup-remove, lookup-insert, NoDup,
  NoDup-remove, NoDup-insert, sum_by, value_at, sum_by-remove, All-remove, All-lookup, list_beq_iff,
}
use tgcryptfs.Cache.{
  CacheConfig, CacheEntry, BlockCache, new, drop_entry, record_entry, clear, get, remove_block,
}
use tgcryptfs.Common.{
  All-mono, ℕ, ◌+◌, ◌≤◌, ◌<◌, ◌≡◌, refl, ◌∙◌, inl, inr, Bool, Option, none, some, arith, Bool-cases,
  Option-cases, u64_mod, add_u64, length, All,
}

-- An entry has its key for its name, and was used no later than the counter says.
abbrev pub IsNamed : ℕ → Bytes × CacheEntry → Type 0
IsNamed counter (k, e) = (e.rid_hex ≡ k) × (e.access_order ≤ counter)

-- Each entry's file is on the disk, with the entry's size.
abbrev pub HasFiles : Dict Bytes CacheEntry → Dict Bytes Bytes → Type 0
HasFiles entries disk =
    (k : Bytes) (e : CacheEntry)
    → lookup k entries ≡ some e
    → (file : Bytes) × (lookup k disk ≡ some file) × (length file ≡ e.size)

HasFiles-remove :
    (key : Bytes) (entries : Dict Bytes CacheEntry) (disk : Dict Bytes Bytes)
    → HasFiles entries disk
    → HasFiles (remove key entries) (remove key disk)
HasFiles-remove key entries disk has k e h = elim (Bool-cases (list_beq key k)) [
  | inl same ↦ absurd (ground (arith, lookup-remove key k entries))
  | inr other ↦
      let (file, at, len) = has k e (ground (arith, lookup-remove key k entries)) in
      (file, ground (arith, lookup-remove key k disk), len)
]

HasFiles-insert :
    (key file : Bytes) (entry : CacheEntry) (entries : Dict Bytes CacheEntry)
    (disk : Dict Bytes Bytes)
    → length file ≡ entry.size
    → HasFiles entries disk
    → HasFiles (insert key entry entries) (insert key file disk)
HasFiles-insert key file entry entries disk len has k e h = elim (Bool-cases (list_beq key k)) [
  | inl same ↦ (
    file,
    ground (arith, lookup-insert key k file disk),
    ground (arith, lookup-insert key k entry entries),
  )
  | inr other ↦
      let (f, at, n) = has k e (ground (arith, lookup-insert key k entry entries)) in
      (f, ground (arith, lookup-insert key k file disk), n)
]

HasFiles-touch :
    (key file : Bytes) (entry : CacheEntry) (entries : Dict Bytes CacheEntry)
    (disk : Dict Bytes Bytes)
    → lookup key disk ≡ some file
    → length file ≡ entry.size
    → HasFiles entries disk
    → HasFiles (insert key entry entries) disk
HasFiles-touch key file entry entries disk at len has k e h = elim (Bool-cases (list_beq key k)) [
  | inl same ↦
      (file, ground (arith, list_beq_iff key k), ground (arith, lookup-insert key k entry entries))
  | inr other ↦ has k e (ground (arith, lookup-insert key k entry entries))
]

-- The index agrees with itself and with the disk: no key twice, the size is the sum of the
-- entries' sizes, an entry has its key for its name and was used no later than the counter says,
-- and each entry's file is there, with the entry's size.
pub record IsConsistent (c : BlockCache) : Type 0 where
  pub distinct : NoDup c.entries
  pub total : c.current_size ≡ sum_by (λ e. e.size) c.entries
  pub fits : c.current_size < u64_mod
  pub named : All (IsNamed c.access_counter) c.entries
  pub stored : HasFiles c.entries c.disk

pub new-IsConsistent : (config : CacheConfig) (key : Bytes) → IsConsistent (new config key)
unfolding new
new-IsConsistent config key = record {
  distinct = tt;
  total = refl;
  fits = omega arith;
  named = tt;
  stored = λ k e h. absurd (ground arith);
}

-- What removing an entry leaves of the size.
pub size-remove :
    (k : Bytes) (m : Dict Bytes CacheEntry) (e : CacheEntry)
    → NoDup m
    → lookup k m ≡ some e
    → sum_by (λ x. x.size) m ≡ e.size + sum_by (λ x. x.size) (remove k m)
size-remove k m e d h = sum_by-remove (λ x. x.size) k m d ∙ (rw h)

pub drop_entry-IsConsistent :
    (key : Bytes) (c : BlockCache) → IsConsistent c → IsConsistent (drop_entry key c)
unfolding drop_entry
drop_entry-IsConsistent key c i = elim (Option-cases (lookup key c.entries)) [
  | inl absent ↦ rw (absent, drop_entry) i
  | inr (entry, found) ↦
      let same = All-lookup (IsNamed c.access_counter) key c.entries entry i.named found in
      rw (found, drop_entry)
        (record {
          distinct = NoDup-remove key c.entries i.distinct;
          total =
              let t = size-remove key c.entries entry i.distinct found in omega (arith, i.total);
          fits = omega arith;
          named = All-remove (IsNamed c.access_counter) key c.entries i.named;
          stored = rw same.0 (HasFiles-remove key c.entries c.disk i.stored);
        })
]

-- The counter of a call that has counted itself; it does not wrap.
counted : (n : ℕ) → n + 1 < u64_mod → n ≤ add_u64 n 1
counted n h = omega arith

newer : (n m : ℕ) → n ≤ m → (e : Bytes × CacheEntry) → IsNamed n e → IsNamed m e
newer n m le e h = (h.0, omega arith)

-- The update of the index and the write of the file, as `put` makes them.
pub record_entry-IsConsistent :
    (rid_hex file : Bytes) (c : BlockCache)
    → c.current_size + length file < u64_mod
    → c.access_counter + 1 < u64_mod
    → IsConsistent c
    → IsConsistent (record c {
      inner = record_entry rid_hex (length file) c.inner;
      disk = insert rid_hex file c.disk;
    })
unfolding record_entry
record_entry-IsConsistent rid_hex file c room count i = record {
  distinct = NoDup-remove-cons;
  total = ground (arith, sized, i.total, i.fits);
  fits = ground (arith, sized, i.total, i.fits);
  named = (
    (refl, omega arith),
    All-mono (newer c.access_counter _ (counted c.access_counter count)) (remove rid_hex c.entries)
        (All-remove (IsNamed c.access_counter) rid_hex c.entries i.named),
  );
  stored = HasFiles-insert rid_hex file entry c.entries c.disk refl i.stored;
}
  where
    entry : CacheEntry
    entry = record {
      rid_hex = rid_hex;
      size = length file;
      access_order = add_u64 c.access_counter 1;
    }

    NoDup-remove-cons : NoDup (insert rid_hex entry c.entries)
    NoDup-remove-cons = NoDup-insert rid_hex entry c.entries i.distinct

    sized :
        sum_by (λ x. x.size) c.entries
        ≡ value_at (λ x. x.size) (lookup rid_hex c.entries)
          + sum_by (λ x. x.size) (remove rid_hex c.entries)
    sized = sum_by-remove (λ x. x.size) rid_hex c.entries i.distinct

-- The size grows by the new entry's at most.
pub record_entry-size :
    (rid_hex : Bytes) (n : ℕ) (c : BlockCache)
    → c.current_size + n < u64_mod
    → IsConsistent c
    → (record_entry rid_hex n c.inner).current_size ≤ c.current_size + n
unfolding record_entry
record_entry-size rid_hex n c room i =
    let sized = sum_by-remove (λ (x : CacheEntry). x.size) rid_hex c.entries i.distinct in
    ground (arith, sized, i.total, i.fits)

module _ (cipher : Cipher) (hex_encode : Bytes → Bytes) where
  -- `get` keeps the invariant, on a hit and on a miss.
  get-IsConsistent :
      (read_ok : Bool) (c : BlockCache) (rid : Bytes)
      → c.access_counter + 1 < u64_mod
      → IsConsistent c
      → IsConsistent (get cipher hex_encode read_ok c rid).0
  unfolding get
  get-IsConsistent read_ok c rid count i = go (lookup key c.entries) refl
    where
      key : Bytes
      key = hex_encode rid

      go :
          (o : Option CacheEntry)
          → lookup key c.entries ≡ o
          → IsConsistent (get cipher hex_encode read_ok c rid).0
      go none e =
          rw (e, get)
            (record {
              distinct = i.distinct;
              total = i.total;
              fits = i.fits;
              named =
                  All-mono (newer c.access_counter _ (counted c.access_counter count)) c.entries
                    i.named;
              stored = i.stored;
            })
      go (some entry) e =
          let named = All-lookup (IsNamed c.access_counter) key c.entries entry i.named e in
          let (file, at, len) = i.stored key entry e in
          rw (e, get)
            (record {
              distinct = NoDup-insert key entry c.entries i.distinct;
              total = i.total ∙ size-remove key c.entries entry i.distinct e;
              fits = i.fits;
              named = (
                (named.0, omega arith),
                All-mono (newer c.access_counter _ (counted c.access_counter count))
                    (remove key c.entries)
                    (All-remove (IsNamed c.access_counter) key c.entries i.named),
              );
              stored = HasFiles-touch key file _ c.entries c.disk at len i.stored;
            })

module _ (hex_encode : Bytes → Bytes) where
  -- `remove` of a consistent cache is the removal that eviction makes.
  pub remove_block-eq_drop_entry :
      (c : BlockCache) (rid : Bytes)
      → IsConsistent c
      → remove_block hex_encode c rid ≡ drop_entry (hex_encode rid) c
  unfolding remove_block
  remove_block-eq_drop_entry c rid i = elim (Option-cases (lookup (hex_encode rid) c.entries)) [
    | inl e ↦ rw (e, remove_block, drop_entry)
    | inr (entry, e) ↦
        let named =
          All-lookup (IsNamed c.access_counter) (hex_encode rid) c.entries entry i.named e in
        rw (e, remove_block, drop_entry, named.0)
  ]

pub clear-IsConsistent : (c : BlockCache) → IsConsistent (clear c)
unfolding clear
clear-IsConsistent c = record {
  distinct = tt;
  total = refl;
  fits = omega arith;
  named = tt;
  stored = λ k e h. absurd (ground arith);
}
