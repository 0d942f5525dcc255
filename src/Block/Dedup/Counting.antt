-- ===== src/Block/Dedup/Counting.antt =====
-- The deduplication index of block/dedup.rs counts references: a refinement of a plain counter.
use mathlib.Core.Path.{fun_ext, ap₂, subst}
use tgcryptfs.Common.Dict.{
  lookup, list_eq, nat_eq, list_beq, list_beq_iff, lookup-insert, lookup-remove, value_at,
}
use tgcryptfs.Crypto.Aead.{Bytes}
use tgcryptfs.Block.Dedup.{DedupEntry, DedupIndex, DedupResult, check, insert_block, release}
use tgcryptfs.Common.{
  ℕ, ◌+◌, ◌-◌, ◌%◌, ◌<◌, ◌≡◌, refl, ◌↔◌, inl, inr, Bool, some, List, [], ◌∷◌, arith, ◌==◌,
  if◌then◌else◌, Option-cases, u32_mod, length,
}

-- The number of references to a hash; an absent hash has none.
abbrev pub refs : DedupIndex → Bytes → ℕ
refs d h = value_at (λ e. e.ref_count) (lookup h d.entries)

-- No entry stays without a reference.
abbrev pub HasRefs : DedupIndex → Type 0
HasRefs d = (h : Bytes) (e : DedupEntry) → lookup h d.entries ≡ some e → 0 < e.ref_count

insert_block-refs :
    (h rid j : Bytes) (d : DedupIndex)
    → refs d h + 1 < u32_mod
    → refs (insert_block h rid d) j ≡ (if list_beq h j then refs d j + 1 else refs d j)
unfolding insert_block
insert_block-refs h rid j d small = elim (Option-cases (lookup h d.entries)) [
  | inl e ↦
      ground
        (arith, lookup-insert h j (record { rid = rid; ref_count = 1 }) d.entries, list_beq_iff h j)
  | inr (entry, e) ↦ ground (
    arith,
    lookup-insert h j (record entry { ref_count = (entry.ref_count + 1) % u32_mod }) d.entries,
    list_beq_iff h j,
  )
]

insert_block-HasRefs :
    (h rid : Bytes) (d : DedupIndex)
    → refs d h + 1 < u32_mod
    → HasRefs d
    → HasRefs (insert_block h rid d)
unfolding insert_block
insert_block-HasRefs h rid d small has j e at = elim (Option-cases (lookup h d.entries)) [
  | inl none_there ↦ ground (
    arith,
    lookup-insert h j (record { rid = rid; ref_count = 1 }) d.entries,
    has j e,
    list_beq_iff h j,
  )
  | inr (entry, there) ↦ ground (
    arith,
    lookup-insert h j (record entry { ref_count = (entry.ref_count + 1) % u32_mod }) d.entries,
    has j e,
    list_beq_iff h j,
  )
]

release-refs :
    (h j : Bytes) (d : DedupIndex)
    → refs (release h d).0 j ≡ (if list_beq h j then refs d j - 1 else refs d j)
unfolding release
release-refs h j d = elim (Option-cases (lookup h d.entries)) [
  | inl e ↦ ground (arith, list_beq_iff h j)
  | inr (entry, e) ↦ ground (
    arith,
    lookup-insert h j (record entry { ref_count = entry.ref_count - 1 }) d.entries,
    lookup-remove h j d.entries,
    list_beq_iff h j,
  )
]

-- `release` asks for collection exactly when it takes the last reference.
release-last : (h : Bytes) (d : DedupIndex) → HasRefs d → (release h d).1 ≡ (refs d h == 1)
unfolding release
release-last h d has = elim (Option-cases (lookup h d.entries)) [
  | inl e ↦ ground arith
  | inr (entry, e) ↦ ground (arith, has h entry e)
]

release-HasRefs : (h : Bytes) (d : DedupIndex) → HasRefs d → HasRefs (release h d).0
unfolding release
release-HasRefs h d has j e at = elim (Option-cases (lookup h d.entries)) [
  | inl none_there ↦ ground (arith, has j e)
  | inr (entry, there) ↦ ground (
    arith,
    lookup-insert h j (record entry { ref_count = entry.ref_count - 1 }) d.entries,
    lookup-remove h j d.entries,
    has j e,
    list_beq_iff h j,
  )
]

-- A call that changes the index.
pub data Call : Type 0 where
  take_ref : Bytes → Bytes → Call
  drop_ref : Bytes → Call

-- The index after the calls, and what each `release` has returned.
unfoldable pub run : List Call → DedupIndex → DedupIndex × List Bool
run [] d = (d, [])
run (take_ref h rid ∷ calls) d = run calls (insert_block h rid d)
run (drop_ref h ∷ calls) d =
    let (d', last) = release h d in let (d'', flags) = run calls d' in (d'', last ∷ flags)

-- The counter that the index implements: a number for each hash, and whether the last one went.
unfoldable pub count_calls : List Call → (Bytes → ℕ) → (Bytes → ℕ) × List Bool
count_calls [] r = (r, [])
count_calls (take_ref h rid ∷ calls) r =
    count_calls calls (λ j. if list_beq h j then r j + 1 else r j)
count_calls (drop_ref h ∷ calls) r =
    let (r', flags) = count_calls calls (λ j. if list_beq h j then r j - 1 else r j) in
    (r', (r h == 1) ∷ flags)

-- The calls leave the index with the counts of `r` after them, and have returned the same flags.
abbrev Agrees : List Call → DedupIndex → (Bytes → ℕ) → Type 0
Agrees calls d r =
    (refs (run calls d).0 ≡ (count_calls calls r).0)
    × ((run calls d).1 ≡ (count_calls calls r).1)
    × HasRefs (run calls d).0

-- From an index without a zero count, through any calls too few to carry a count to 2^32, the index
-- counts as the plain counter does, every `release` returns true exactly when it takes the last
-- reference of its hash, and no zero count is left.
pub run-count_calls :
    (calls : List Call) (d : DedupIndex)
    → HasRefs d
    → ((h : Bytes) → refs d h + length calls < u32_mod)
    → (refs (run calls d).0 ≡ (count_calls calls (refs d)).0)
      × ((run calls d).1 ≡ (count_calls calls (refs d)).1)
      × HasRefs (run calls d).0
unfolding run count_calls
run-count_calls [] d has small = (refl, refl, has)
run-count_calls (take_ref h rid ∷ calls) d has small =
    let one_more : refs d h + 1 < u32_mod = omega (arith, small h) in
    let same = fun_ext (λ j. insert_block-refs h rid j d one_more) in
    subst (Agrees calls (insert_block h rid d)) same (
      run-count_calls calls (insert_block h rid d) (insert_block-HasRefs h rid d one_more has)
        (λ j. ground (arith, insert_block-refs h rid j d one_more, small j)))
run-count_calls (drop_ref h ∷ calls) d has small =
    let same = fun_ext (λ j. release-refs h j d) in
    let (counts, flags, kept) = subst (Agrees calls (release h d).0) same (
      run-count_calls calls (release h d).0 (release-HasRefs h d has)
        (λ j. ground (arith, release-refs h j d, small j))) in
    (counts, ap₂ ◌∷◌ (release-last h d has) flags, kept)

-- `check` finds a duplicate exactly when the content's hash has references.
check-refs :
    (hash : Bytes → Bytes) (d : DedupIndex) (contents : Bytes)
    → HasRefs d
    → (check hash d contents ≡ DedupResult.unique (hash contents)) ↔ (refs d (hash contents) ≡ 0)
unfolding check
check-refs hash d contents has = elim (Option-cases (lookup (hash contents) d.entries)) [
  | inl e ↦ (λ _. ground arith, λ _. ground arith)
  | inr (entry, e) ↦
      (λ h. absurd (ground arith), λ z. absurd (ground (arith, has (hash contents) entry e)))
]
