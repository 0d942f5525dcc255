-- ===== src/Tests/SnapshotTable.antt =====
-- A database of snapshots that lists rows of the same second in the order of the table.
use mathlib.Core.Path.{subst}
use mathlib.Core.List.{Permᴰ}
use tgcryptfs.Crypto.Aead.{Bytes}
use tgcryptfs.Common.Dict.{list_eq, nat_eq}
use tgcryptfs.Fuse.BlockRows.{ℤ, pos, negsuc}
use tgcryptfs.Sharing.{is_after}
use tgcryptfs.Tests.ShareCodec.{toy_answered}
use tgcryptfs.Records.Snapshots.{
  SnapshotRow, SnapshotQuery, by_sid, of_inode, recent, Descending, Answers, SnapshotDb,
}
use tgcryptfs.Common.{
  ℕ, ◌+◌, ◌<◌, ◌≡◌, refl, sym, ap, ◌∙◌, inl, inr, Bool, true, false, Option, none, some, List, [],
  ◌∷◌, ◌++◌, arith, ◌==◌, if◌then◌else◌, Bool-cases, Option-cases, take, drop, filterb, All,
}

-- The rows, the last id that was given out, and which of the next statements fail.
abbrev pub LogConn : Type 0
LogConn = List SnapshotRow × ℕ × List Bool

-- An id above all others.
abbrev pub next_sid : List SnapshotRow → ℕ
next_sid [] = 1
next_sid (r ∷ rows) = r.sid + next_sid rows + 1

next_sid_weaken :
    (n : ℕ) (rows others : List SnapshotRow)
    → All (λ (r : SnapshotRow). r.sid < next_sid others) rows
    → All (λ (r : SnapshotRow). r.sid < n + next_sid others + 1) rows
next_sid_weaken n [] others h = tt
next_sid_weaken n (r ∷ rows) others (a, h) = (omega arith, next_sid_weaken n rows others h)

pub below_next : (rows : List SnapshotRow) → All (λ (r : SnapshotRow). r.sid < next_sid rows) rows
below_next [] = tt
below_next (r ∷ rows) = (omega arith, next_sid_weaken r.sid rows rows (below_next rows))

abbrev pub log_insert : ℤ → Bytes → ℕ → LogConn → LogConn × Bool
log_insert seconds contents ino (rows, last, true ∷ faults) = ((rows, last, faults), false)
log_insert seconds contents ino (rows, last, faults) =
    let row : SnapshotRow = record {
      sid = next_sid rows;
      seconds = seconds;
      contents = contents;
      ino = ino;
    } in
    ((rows ++ row ∷ [], next_sid rows, drop 1 faults), true)

-- Up to two rows in their order; more rows are an error.
abbrev pub ordered : List SnapshotRow → Option (List SnapshotRow)
ordered [] = some []
ordered (x ∷ []) = some (x ∷ [])
ordered (x ∷ y ∷ []) = if is_after y.seconds x.seconds then some (y ∷ x ∷ []) else some (x ∷ y ∷ [])
ordered (x ∷ y ∷ z ∷ rows) = none

not_both : (a b : ℤ) → is_after a b ≡ true → is_after b a ≡ false
unfolding is_after
not_both (pos a) (pos b) h = ground arith
not_both (pos a) (negsuc b) h = refl
not_both (negsuc a) (pos b) h = absurd (ground arith)
not_both (negsuc a) (negsuc b) h = ground arith

abbrev Orders : List SnapshotRow → List SnapshotRow → Type 0
Orders rows found = Permᴰ rows found × Descending (λ (r : SnapshotRow). r.seconds) found

some_is : {A : Type 0} (P : A → Type 0) (a b : A) → some a ≡ some b → P a → P b
some_is P a b h x = subst P (sym (toy_answered a b h)) x

ordered-Orders : (rows found : List SnapshotRow) → ordered rows ≡ some found → Orders rows found
ordered-Orders [] found h = some_is (Orders []) [] found h (Permᴰ.nil, tt)
ordered-Orders (x ∷ []) found h =
    some_is (Orders (x ∷ [])) (x ∷ []) found h (Permᴰ.cons refl Permᴰ.nil, (tt, tt))
ordered-Orders (x ∷ y ∷ []) found h = elim (Bool-cases (is_after y.seconds x.seconds)) [
  | inl later ↦
      some_is (Orders (x ∷ y ∷ [])) (y ∷ x ∷ []) found (cc)
        (Permᴰ.swap refl refl, ((not_both y.seconds x.seconds later, tt), (tt, tt)))
  | inr not_later ↦
      some_is (Orders (x ∷ y ∷ [])) (x ∷ y ∷ []) found (cc)
        (Permᴰ.cons refl (Permᴰ.cons refl Permᴰ.nil), ((not_later, tt), (tt, tt)))
]
ordered-Orders (x ∷ y ∷ z ∷ rows) found h = absurd (ground arith)

abbrev pub log_query : SnapshotQuery → LogConn → Option (List SnapshotRow)
log_query (by_sid sid) c = some (filterb (λ (r : SnapshotRow). r.sid == sid) c.0)
log_query (of_inode ino) c = ordered (filterb (λ (r : SnapshotRow). r.ino == ino) c.0)
log_query (recent limit) c = elim (ordered c.0) [ none ↦ none | some rows ↦ some (take limit rows) ]

pub log-Answers :
    (q : SnapshotQuery) (c : LogConn) (found : List SnapshotRow)
    → log_query q c ≡ some found
    → Answers q c.0 found
log-Answers (by_sid sid) c found h =
    toy_answered (filterb (λ (r : SnapshotRow). r.sid == sid) c.0) found h
log-Answers (of_inode ino) c found h =
    ordered-Orders (filterb (λ (r : SnapshotRow). r.ino == ino) c.0) found h
log-Answers (recent limit) c found h = elim (Option-cases (ordered c.0)) [
  | inl e ↦ absurd (ground arith)
  | inr (rows, e) ↦
      let (order, sorted) = ordered-Orders c.0 rows e in
      (rows, order, sorted, toy_answered (take limit rows) found (ground arith))
]

abbrev pub log_row : ℤ → Bytes → ℕ → List SnapshotRow → SnapshotRow
log_row seconds contents ino rows = record {
  sid = next_sid rows;
  seconds = seconds;
  contents = contents;
  ino = ino;
}

pub log_inserts :
    (seconds : ℤ) (contents : Bytes) (ino : ℕ) (c : LogConn)
    → (log_insert seconds contents ino c).1 ≡ true
    → ((log_insert seconds contents ino c).0.0 ≡ c.0 ++ log_row seconds contents ino c.0 ∷ [])
      × ((log_insert seconds contents ino c).0.1 ≡ next_sid c.0)
log_inserts seconds contents ino (rows, last, []) h = (refl, refl)
log_inserts seconds contents ino (rows, last, true ∷ faults) h = absurd (ground arith)
log_inserts seconds contents ino (rows, last, false ∷ faults) h = (refl, refl)

pub log_refuses :
    (seconds : ℤ) (contents : Bytes) (ino : ℕ) (c : LogConn)
    → (log_insert seconds contents ino c).1 ≡ false
    → (log_insert seconds contents ino c).0.0 ≡ c.0
log_refuses seconds contents ino (rows, last, []) h = absurd (ground arith)
log_refuses seconds contents ino (rows, last, true ∷ faults) h = refl
log_refuses seconds contents ino (rows, last, false ∷ faults) h = absurd (ground arith)

abbrev pub log_db : SnapshotDb
log_db = record {
  Conn = LogConn;
  rows = λ c. c.0;
  insert = log_insert;
  last_insert_rowid = λ c. c.1;
  query = log_query;
  inserts = λ seconds contents ino c h.
      let (changed, last) = log_inserts seconds contents ino c h in
      changed
      ∙ ap (λ n. c.0 ++ record { sid = n; seconds = seconds; contents = contents; ino = ino } ∷ [])
          (sym last);
  increases = λ seconds contents ino c h.
      subst (λ n. All (λ (r : SnapshotRow). r.sid < n) c.0)
        (sym (log_inserts seconds contents ino c h).1) (below_next c.0);
  refuses = log_refuses;
  answers = log-Answers;
}
