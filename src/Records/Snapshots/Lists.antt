-- ===== src/Records/Snapshots/Lists.antt =====
-- What the snapshot store lists after any appends, of which any may fail.
use mathlib.Core.Path.{subst}
use mathlib.Core.List.{Permᴰ}
use tgcryptfs.Crypto.Aead.{Bytes}
use tgcryptfs.Fuse.Store.{Session, StoreError, sql}
use tgcryptfs.Records.Snapshots.{
  SnapshotRow, SnapshotStore, Descending, sealed_entry, append, inserted, list_for_inode,
  list_recent, of_inode, recent, entries_for, own_entries, drawn_again,
}
use tgcryptfs.Records.Snapshots.Entries.{SnapshotEntry, seconds_of}
use tgcryptfs.Records.Snapshots.Orders.{
  Holds, HoldAll, HoldAll-append, HoldAll-filterb, HoldAll-take, Reordered, HoldAll-Reordered,
  HoldAll-Descending, own_entries-HoldAll, entries_for-own_entries, try_decrypt_entry-sealed_entry,
}
use tgcryptfs.Common.{
  ℕ, ◌<◌, ◌≡◌, refl, sym, ap, ◌∙◌, ◌⊎◌, inl, inr, some, List, [], ◌∷◌, ◌++◌, arith, ◌==◌,
  if◌then◌else◌, ==_iff, Bool-cases, Result, ok, err, is_ok, take, filterb, All, All-filterb,
  Result-cases,
}

module _ {A : Type 0} (P : A → Type 0) where
  All-Permᴰ : {xs ys : List A} → Permᴰ xs ys → All P xs → All P ys
  All-Permᴰ Permᴰ.nil h = tt
  All-Permᴰ (Permᴰ.cons e p) h = (subst P e h.0, All-Permᴰ p h.1)
  All-Permᴰ (Permᴰ.swap e f) h = (subst P f h.1.0, (subst P e h.0, h.1.1))
  All-Permᴰ (Permᴰ.trans p q) h = All-Permᴰ q (All-Permᴰ p h)

every : (rows : List SnapshotRow) → All (λ (r : SnapshotRow). Unit {0}) rows
every [] = tt
every (r ∷ rows) = (tt, every rows)

module _ (store : SnapshotStore) where
  abbrev pub snapshot_rows : Session store.Conn → List SnapshotRow
  snapshot_rows s = store.rows s.conn

  -- The row of an entry that was appended.
  abbrev pub entry_row : ℕ → SnapshotEntry → Bytes → SnapshotRow
  entry_row sid entry contents = record {
    sid = sid;
    seconds = seconds_of entry;
    contents = contents;
    ino = entry.inode;
  }

  abbrev pub Appended :
      SnapshotEntry → Session store.Conn → Session store.Conn × Result StoreError ℕ → Type 0
  Appended entry s after =
      ((sid : ℕ) × (contents : Bytes) × (after.1 ≡ ok sid)
        × (snapshot_rows after.0 ≡ snapshot_rows s ++ entry_row sid entry contents ∷ [])
        × Holds store (entry_row sid entry contents) entry
        × All (λ (r : SnapshotRow). r.sid < sid) (snapshot_rows s))
      ⊎ ((failure : StoreError) × (after.1 ≡ err failure))
        × (snapshot_rows after.0 ≡ snapshot_rows s)

  append_sealed :
      (entry : SnapshotEntry) (s : Session store.Conn) (contents : Bytes)
      → sealed_entry store s.drawn entry ≡ ok contents
      → append store entry s
        ≡ inserted store (seconds_of entry) contents entry.inode (drawn_again store s)
  unfolding append
  append_sealed entry s contents h = rw (h, append) refl

  append_unsealed :
      (entry : SnapshotEntry) (s : Session store.Conn) (failure : StoreError)
      → sealed_entry store s.drawn entry ≡ err failure
      → append store entry s ≡ (drawn_again store s, err failure)
  unfolding append
  append_unsealed entry s failure h = rw (h, append) refl

  inserted-Appended :
      (entry : SnapshotEntry) (s : Session store.Conn) (contents : Bytes)
      → Holds store (entry_row 0 entry contents) entry
      → Appended entry s (inserted store (seconds_of entry) contents entry.inode s)
  unfolding inserted
  inserted-Appended entry s contents holds =
      let done = store.insert (seconds_of entry) contents entry.inode s.conn in
      elim (Bool-cases done.1) [
        | inr failed ↦ inr (
          (sql, rw failed refl),
          store.db.refuses (seconds_of entry) contents entry.inode s.conn failed,
        )
        | inl worked ↦ inl (
          store.last_insert_rowid done.0,
          contents,
          rw worked refl,
          store.db.inserts (seconds_of entry) contents entry.inode s.conn worked,
          holds,
          store.db.increases (seconds_of entry) contents entry.inode s.conn worked,
        )
      ]

  -- An append puts a row behind the others that holds the entry, under a new id, or it changes no row.
  pub append-Appended :
      (entry : SnapshotEntry) (s : Session store.Conn) → Appended entry s (append store entry s)
  append-Appended entry s = elim (Result-cases (sealed_entry store s.drawn entry)) [
    | inr (failure, f) ↦ rw (append_unsealed entry s failure f) (inr ((failure, refl), refl))
    | inl (contents, f) ↦ rw (append_sealed entry s contents f) (
        inserted-Appended entry (drawn_again store s) contents
          (refl, refl, try_decrypt_entry-sealed_entry store s.drawn entry contents f))
  ]

  -- The appends one after the other, whatever each answers.
  unfoldable pub append_all : List SnapshotEntry → Session store.Conn → Session store.Conn
  append_all [] s = s
  append_all (entry ∷ entries) s = append_all entries (append store entry s).0

  -- The log after the appends that are answered Ok.
  unfoldable pub logged :
      List SnapshotEntry → Session store.Conn → List SnapshotEntry → List SnapshotEntry
  logged [] s log = log
  logged (entry ∷ entries) s log =
      let after = append store entry s in
      logged entries after.0 (if is_ok after.1 then log ++ entry ∷ [] else log)

  pub append_all-HoldAll :
      (entries : List SnapshotEntry) (s : Session store.Conn) (log : List SnapshotEntry)
      → HoldAll store (snapshot_rows s) log
      → HoldAll store (snapshot_rows (append_all entries s)) (logged entries s log)
  unfolding append_all logged
  append_all-HoldAll [] s log h = h
  append_all-HoldAll (entry ∷ entries) s log h =
      let after = (append store entry s).0 in
      elim (append-Appended entry s) [
        | inr ((failure, failed), same) ↦ rw failed (
            append_all-HoldAll entries after log
              (subst (λ rows. HoldAll store rows log) (sym same) h))
        | inl (sid, contents, worked, changed, holds, above) ↦ rw worked (
            append_all-HoldAll entries after (log ++ entry ∷ []) (
              subst (λ rows. HoldAll store rows (log ++ entry ∷ [])) (sym changed)
                (HoldAll-append store (snapshot_rows s) (entry_row sid entry contents ∷ []) log
                  (entry ∷ []) h (holds, tt))))
      ]

  -- A listing of some entries, the newest second first.
  abbrev pub Lists : List SnapshotEntry → Result StoreError (List SnapshotEntry) → Type 0
  Lists entries answer =
      (listed : List SnapshotEntry) × (answer ≡ ok listed)
      × Permᴰ entries listed
      × Descending seconds_of listed

  abbrev pub of_ino : ℕ → List SnapshotEntry → List SnapshotEntry
  of_ino ino entries = filterb (λ (entry : SnapshotEntry). entry.inode == ino) entries

  pub list_for_inode-HoldAll :
      (ino : ℕ) (s : Session store.Conn) (log : List SnapshotEntry) (found : List SnapshotRow)
      → HoldAll store (snapshot_rows s) log
      → store.query (of_inode ino) s.conn ≡ some found
      → Lists (of_ino ino log) (list_for_inode store ino s)
  unfolding list_for_inode
  list_for_inode-HoldAll ino s log found h asked =
      let answer = store.db.answers (of_inode ino) s.conn found asked in
      let (listed, order, holds) : Reordered store found (of_ino ino log) =
        HoldAll-Reordered store (of_ino ino log) answer.0
          (HoldAll-filterb store (λ n. n == ino) (snapshot_rows s) log h) in
      let run : list_for_inode store ino s ≡ entries_for store ino found = ground arith in
      let own : All (λ (r : SnapshotRow). r.ino ≡ ino) found =
        All-Permᴰ (λ (r : SnapshotRow). r.ino ≡ ino) answer.0
          (All-filterb {Q = λ _. Unit {0}} (λ (r : SnapshotRow). r.ino == ino)
            (λ r _ e. (==_iff r.ino ino).0 e) (snapshot_rows s) (every (snapshot_rows s))) in
      (
        listed,
        run
            ∙ entries_for-own_entries store ino found own
            ∙ own_entries-HoldAll store found listed holds,
        order,
        HoldAll-Descending store found listed holds answer.1,
      )

  pub list_recent-HoldAll :
      (limit : ℕ) (s : Session store.Conn) (log : List SnapshotEntry) (found : List SnapshotRow)
      → HoldAll store (snapshot_rows s) log
      → store.query (recent limit) s.conn ≡ some found
      → (ordered : List SnapshotEntry) × (list_recent store limit s ≡ ok (take limit ordered))
        × Permᴰ log ordered
        × Descending seconds_of ordered
  unfolding list_recent
  list_recent-HoldAll limit s log found h asked =
      let (rows, order, sorted, cut) = store.db.answers (recent limit) s.conn found asked in
      let (ordered, order', holds) : Reordered store rows log =
        HoldAll-Reordered store log order h in
      let run : list_recent store limit s ≡ own_entries store found = ground arith in
      (
        ordered,
        run
            ∙ ap (own_entries store) cut
            ∙ own_entries-HoldAll store (take limit rows) (take limit ordered)
                (HoldAll-take store limit rows ordered holds),
        order',
        HoldAll-Descending store rows ordered holds sorted,
      )

  -- Start from a table whose rows hold the entries of `log`, and append any entries, of which any may
  -- fail. If SQLite then answers both queries, `list_for_inode` gives, the newest second first, the
  -- entries of that inode in the log with the accepted entries behind, each as often as it was
  -- appended, and `list_recent` gives the first `limit` entries of such an order of that whole log.
  pub append_all-Lists :
      (entries : List SnapshotEntry) (s : Session store.Conn) (log : List SnapshotEntry)
      (ino limit : ℕ) (found latest : List SnapshotRow)
      → HoldAll store (snapshot_rows s) log
      → store.query (of_inode ino) (append_all entries s).conn ≡ some found
      → store.query (recent limit) (append_all entries s).conn ≡ some latest
      → Lists (of_ino ino (logged entries s log)) (list_for_inode store ino (append_all entries s))
        × ((ordered : List SnapshotEntry) × (list_recent store limit (append_all entries s)
              ≡ ok (take limit ordered))
            × Permᴰ (logged entries s log) ordered
            × Descending seconds_of ordered)
  append_all-Lists entries s log ino limit found latest h one many =
      let after = append_all-HoldAll entries s log h in
      (
        list_for_inode-HoldAll ino (append_all entries s) (logged entries s log) found after one,
        list_recent-HoldAll limit (append_all entries s) (logged entries s log) latest after many,
      )
