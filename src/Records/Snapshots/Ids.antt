-- ===== src/Records/Snapshots/Ids.antt =====
-- The id that an append answers names its entry from then on.
use tgcryptfs.Fuse.Store.{Session}
use tgcryptfs.Records.Snapshots.{
  SnapshotRow, SnapshotStore, append, get_snapshot, by_sid, first_entry,
}
use tgcryptfs.Records.Snapshots.Entries.{SnapshotEntry}
use tgcryptfs.Records.Snapshots.Lists.{snapshot_rows, entry_row, append-Appended, append_all}
use tgcryptfs.Common.{
  filterb-append, ℕ, ◌<◌, ◌≡◌, refl, sym, ap, ◌∙◌, inl, inr, false, some, List, [], ◌∷◌, arith,
  ◌==◌, ==_iff, Bool-cases, ok, filterb, All,
}

abbrev with_sid : ℕ → List SnapshotRow → List SnapshotRow
with_sid sid rows = filterb (λ (r : SnapshotRow). r.sid == sid) rows

with_sid_below :
    (sid : ℕ) (rows : List SnapshotRow)
    → All (λ (r : SnapshotRow). r.sid < sid) rows
    → with_sid sid rows ≡ []
with_sid_below sid [] h = refl
with_sid_below sid (r ∷ rows) (a, h) = ground (arith, with_sid_below sid rows h)

-- An id that names one of the rows is not above all of them.
with_sid_taken :
    (sid next : ℕ) (row : SnapshotRow) (rows : List SnapshotRow)
    → All (λ (r : SnapshotRow). r.sid < next) rows
    → with_sid sid rows ≡ row ∷ []
    → (next == sid) ≡ false
with_sid_taken sid next row rows below e = elim (Bool-cases (next == sid)) [
  | inr differs ↦ differs
  | inl same ↦
      let next_is : next ≡ sid = (==_iff next sid).0 same in
      absurd (cc (with_sid_below next rows below))
]

module _ (store : SnapshotStore) where
  append-with_sid :
      (sid : ℕ) (row : SnapshotRow) (entry : SnapshotEntry) (s : Session store.Conn)
      → with_sid sid (snapshot_rows store s) ≡ row ∷ []
      → with_sid sid (snapshot_rows store (append store entry s).0) ≡ row ∷ []
  append-with_sid sid row entry s h = elim (append-Appended store entry s) [
    | inr (failed, same) ↦ ap (with_sid sid) same ∙ h
    | inl (next, contents, worked, changed, holds, above) ↦
        let other = with_sid_taken sid next row (snapshot_rows store s) above h in
        ap (with_sid sid) changed
        ∙ filterb-append (λ (r : SnapshotRow). r.sid == sid) (snapshot_rows store s)
            (entry_row store next entry contents ∷ [])
        ∙ ground (arith, h, other)
  ]

  append_all-with_sid :
      (sid : ℕ) (row : SnapshotRow) (entries : List SnapshotEntry) (s : Session store.Conn)
      → with_sid sid (snapshot_rows store s) ≡ row ∷ []
      → with_sid sid (snapshot_rows store (append_all store entries s)) ≡ row ∷ []
  unfolding append_all
  append_all-with_sid sid row [] s h = h
  append_all-with_sid sid row (entry ∷ entries) s h =
      append_all-with_sid sid row entries (append store entry s).0
        (append-with_sid sid row entry s h)

  -- When `append` of an entry answers Ok with an id, then after any further appends, of which any may
  -- fail, `get` of that id and the entry's inode gives the entry, if SQLite answers.
  pub get_snapshot-append :
      (entry : SnapshotEntry) (later : List SnapshotEntry) (s : Session store.Conn) (row_id : ℕ)
      (found : List SnapshotRow)
      → (append store entry s).1 ≡ ok row_id
      → store.query (by_sid row_id) (append_all store later (append store entry s).0).conn
        ≡ some found
      → get_snapshot store row_id entry.inode (append_all store later (append store entry s).0)
        ≡ ok (some entry)
  unfolding get_snapshot first_entry
  get_snapshot-append entry later s row_id found worked asked =
      elim (append-Appended store entry s) [
        | inr ((failure, failed), same) ↦ absurd (ground arith)
        | inl (sid, contents, done, changed, holds, above) ↦
            let is_sid : sid ≡ row_id = ground arith in
            let row = entry_row store sid entry contents in
            let here : with_sid sid (snapshot_rows store (append store entry s).0) ≡ row ∷ [] =
              ap (with_sid sid) changed
              ∙ filterb-append (λ (r : SnapshotRow). r.sid == sid) (snapshot_rows store s)
                  (row ∷ [])
              ∙ ground (arith, with_sid_below sid (snapshot_rows store s) above) in
            let last = append_all store later (append store entry s).0 in
            let rows_are : found ≡ row ∷ [] =
              store.db.answers (by_sid row_id) last.conn found asked
              ∙ ap (λ n. with_sid n (snapshot_rows store last)) (sym is_sid)
              ∙ append_all-with_sid sid row later (append store entry s).0 here in
            let first : get_snapshot store row_id entry.inode last
                ≡ first_entry store entry.inode found =
              ground arith in
            first ∙ ap (first_entry store entry.inode) rows_are ∙ rw holds.2 refl
      ]
