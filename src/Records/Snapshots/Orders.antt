-- ===== src/Records/Snapshots/Orders.antt =====
-- The rows of the snapshot table and the entries they open to, in any order.
use mathlib.Core.Path.{subst}
use mathlib.Core.List.{Permᴰ}
use tgcryptfs.Crypto.Aead.{Bytes, encrypt, decrypt-encrypt}
use tgcryptfs.Sharing.{is_after}
use tgcryptfs.Records.Snapshots.{
  SnapshotRow, SnapshotStore, Descending, sealed_entry, try_decrypt_entry, entries_for, own_entries,
  snapshot_aad,
}
use tgcryptfs.Records.Snapshots.Entries.{SnapshotEntry, seconds_of}
use tgcryptfs.Common.{
  ℕ, zero, suc, ◌≡◌, refl, ap, inl, inr, Bool, false, List, [], ◌∷◌, ◌++◌, arith, Bool-cases,
  Option-cases, ok, take, filterb, All,
}

module _ (store : SnapshotStore) where
  pub try_decrypt_entry-sealed_entry :
      (n : ℕ) (entry : SnapshotEntry) (contents : Bytes)
      → sealed_entry store n entry ≡ ok contents
      → try_decrypt_entry store contents entry.inode ≡ ok entry
  unfolding sealed_entry try_decrypt_entry
  try_decrypt_entry-sealed_entry n entry contents h = elim (Option-cases (store.serialize entry)) [
    | inl none_is ↦ absurd (ground arith)
    | inr (bytes, is) ↦
        let aad = snapshot_aad entry.inode in
        let sealed : encrypt store.cipher (store.nonce n) store.meta_key bytes aad ≡ ok contents =
          ground arith in
        rw
          (
            decrypt-encrypt store.cipher (store.nonce n) store.meta_key bytes aad contents
                (store.sized n) sealed,
            store.deserializes entry bytes is,
            try_decrypt_entry,
          )
          refl
  ]

  -- The row holds the entry, with its inode and its seconds as columns.
  abbrev pub Holds : SnapshotRow → SnapshotEntry → Type 0
  Holds r entry =
      (r.ino ≡ entry.inode)
      × (r.seconds ≡ seconds_of entry)
      × (try_decrypt_entry store r.contents r.ino ≡ ok entry)

  abbrev pub HoldAll : List SnapshotRow → List SnapshotEntry → Type 0
  HoldAll [] [] = Unit
  HoldAll [] (entry ∷ entries) = ⊥
  HoldAll (r ∷ rows) [] = ⊥
  HoldAll (r ∷ rows) (entry ∷ entries) = Holds r entry × HoldAll rows entries

  pub HoldAll-append :
      (rows more : List SnapshotRow) (entries others : List SnapshotEntry)
      → HoldAll rows entries
      → HoldAll more others
      → HoldAll (rows ++ more) (entries ++ others)
  HoldAll-append [] more [] others h k = k
  HoldAll-append [] more (entry ∷ entries) others h k = absurd h
  HoldAll-append (r ∷ rows) more [] others h k = absurd h
  HoldAll-append (r ∷ rows) more (entry ∷ entries) others (a, h) k =
      (a, HoldAll-append rows more entries others h k)

  pub HoldAll-filterb :
      (test : ℕ → Bool) (rows : List SnapshotRow) (entries : List SnapshotEntry)
      → HoldAll rows entries
      → HoldAll
          (filterb (λ (r : SnapshotRow). test r.ino) rows)
          (filterb (λ (entry : SnapshotEntry). test entry.inode) entries)
  HoldAll-filterb test [] [] h = tt
  HoldAll-filterb test [] (entry ∷ entries) h = absurd h
  HoldAll-filterb test (r ∷ rows) [] h = absurd h
  HoldAll-filterb test (r ∷ rows) (entry ∷ entries) (a, h) =
      let same : test r.ino ≡ test entry.inode = ap test a.0 in
      elim (Bool-cases (test entry.inode)) [
        | inl chosen ↦ rw (same, chosen) (a, HoldAll-filterb test rows entries h)
        | inr other ↦ rw (same, other) (HoldAll-filterb test rows entries h)
      ]

  pub HoldAll-take :
      (n : ℕ) (rows : List SnapshotRow) (entries : List SnapshotEntry)
      → HoldAll rows entries
      → HoldAll (take n rows) (take n entries)
  HoldAll-take zero rows entries h = tt
  HoldAll-take (suc n) [] [] h = tt
  HoldAll-take (suc n) [] (entry ∷ entries) h = absurd h
  HoldAll-take (suc n) (r ∷ rows) [] h = absurd h
  HoldAll-take (suc n) (r ∷ rows) (entry ∷ entries) (a, h) = (a, HoldAll-take n rows entries h)

  -- Rows in another order hold the entries in that order.
  abbrev pub Reordered : List SnapshotRow → List SnapshotEntry → Type 0
  Reordered rows entries =
      (ordered : List SnapshotEntry) × Permᴰ entries ordered × HoldAll rows ordered

  pub HoldAll-Reordered :
      {rows found : List SnapshotRow} (entries : List SnapshotEntry)
      → Permᴰ rows found
      → HoldAll rows entries
      → Reordered found entries
  HoldAll-Reordered [] Permᴰ.nil h = ([], Permᴰ.nil, tt)
  HoldAll-Reordered (entry ∷ entries) Permᴰ.nil h = absurd h
  HoldAll-Reordered [] (Permᴰ.cons e p) h = absurd h
  HoldAll-Reordered (entry ∷ entries) (Permᴰ.cons e p) (a, h) =
      let (ordered, q, k) : Reordered _ entries = HoldAll-Reordered entries p h in
      (entry ∷ ordered, Permᴰ.cons refl q, (subst (λ r. Holds r entry) e a, k))
  HoldAll-Reordered [] (Permᴰ.swap e f) h = absurd h
  HoldAll-Reordered (entry ∷ []) (Permᴰ.swap e f) (a, h) = absurd h
  HoldAll-Reordered (entry ∷ other ∷ entries) (Permᴰ.swap e f) (a, h) = (
    other ∷ entry ∷ entries,
    Permᴰ.swap refl refl,
    (subst (λ r. Holds r other) f h.0, (subst (λ r. Holds r entry) e a, h.1)),
  )
  HoldAll-Reordered entries (Permᴰ.trans p q) h =
      let (middle, p', k) : Reordered _ entries = HoldAll-Reordered entries p h in
      let (ordered, q', l) : Reordered _ middle = HoldAll-Reordered middle q k in
      (ordered, Permᴰ.trans p' q', l)

  not_after :
      (x : SnapshotRow) (first : SnapshotEntry) (rows : List SnapshotRow)
      (entries : List SnapshotEntry)
      → x.seconds ≡ seconds_of first
      → HoldAll rows entries
      → All (λ (r : SnapshotRow). is_after r.seconds x.seconds ≡ false) rows
      → All
          (λ (entry : SnapshotEntry). is_after (seconds_of entry) (seconds_of first) ≡ false)
          entries
  not_after x first [] [] e h d = tt
  not_after x first [] (entry ∷ entries) e h d = absurd h
  not_after x first (r ∷ rows) [] e h d = absurd h
  not_after x first (r ∷ rows) (entry ∷ entries) e (a, h) (d, ds) =
      (cc, not_after x first rows entries e h ds)

  pub HoldAll-Descending :
      (rows : List SnapshotRow) (entries : List SnapshotEntry)
      → HoldAll rows entries
      → Descending (λ (r : SnapshotRow). r.seconds) rows
      → Descending seconds_of entries
  HoldAll-Descending [] [] h d = tt
  HoldAll-Descending [] (entry ∷ entries) h d = absurd h
  HoldAll-Descending (r ∷ rows) [] h d = absurd h
  HoldAll-Descending (r ∷ rows) (entry ∷ entries) (a, h) (d, ds) =
      (not_after r entry rows entries a.1 h d, HoldAll-Descending rows entries h ds)

  pub own_entries-HoldAll :
      (rows : List SnapshotRow) (entries : List SnapshotEntry)
      → HoldAll rows entries
      → own_entries store rows ≡ ok entries
  unfolding own_entries
  own_entries-HoldAll [] [] h = refl
  own_entries-HoldAll [] (entry ∷ entries) h = absurd h
  own_entries-HoldAll (r ∷ rows) [] h = absurd h
  own_entries-HoldAll (r ∷ rows) (entry ∷ entries) (a, h) =
      rw (a.2, own_entries-HoldAll rows entries h) refl

  -- For rows of one inode the two loops agree.
  pub entries_for-own_entries :
      (ino : ℕ) (rows : List SnapshotRow)
      → All (λ (r : SnapshotRow). r.ino ≡ ino) rows
      → entries_for store ino rows ≡ own_entries store rows
  unfolding entries_for own_entries
  entries_for-own_entries ino [] h = refl
  entries_for-own_entries ino (r ∷ rows) (a, h) = rw (a, entries_for-own_entries ino rows h) refl
