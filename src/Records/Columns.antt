-- ===== src/Records/Columns.antt =====
-- A change of columns alone: the encrypted record of the row stays what it was.
use tgcryptfs.Crypto.Aead.{Bytes}
use tgcryptfs.Common.Dict.{Eq}
use tgcryptfs.Fuse.Store.{Session, StoreError}
use tgcryptfs.Records.{
  TableRow, with_columns, put_row, set_columns, row_effect, rows_of, row_answer, Store,
  run_statement, first_record, fetch,
}
use tgcryptfs.Records.Opening.{first_contents}
use tgcryptfs.Records.Refinement.{run_statement_cases}
use tgcryptfs.Common.{
  ◌≡◌, refl, ap, ◌∙◌, inl, inr, Bool, true, false, not, Option, some, List, [], ◌∷◌, map, arith,
  if◌then◌else◌, Bool-cases, Result, filterb, filterb-append,
}

module _ {K C X : Type 0} ⦃e : Eq K⦄ where
  -- Every row of the key has columns that pass the test.
  abbrev pub ColumnsPass : K → (C → Bool) → List (TableRow K C X) → Type 0
  ColumnsPass key test [] = Unit
  ColumnsPass key test (r ∷ rows) =
      (if e.beq r.key key then test r.columns else true) ≡ true × ColumnsPass key test rows

  pub ColumnsPass-with_columns :
      (key : K) (f : C → C) (test : C → Bool) (rows : List (TableRow K C X))
      → ((c : C) → test (f c) ≡ true)
      → ColumnsPass key test (map (with_columns key f) rows)
  ColumnsPass-with_columns key f test [] h = tt
  ColumnsPass-with_columns key f test (r ∷ rows) h = elim (Bool-cases (e.beq r.key key)) [
    | inl same ↦ (rw (same, same) (h r.columns), ColumnsPass-with_columns key f test rows h)
    | inr other ↦ (rw (other, other) refl, ColumnsPass-with_columns key f test rows h)
  ]

  -- The records of the rows that pass a test which a change of columns makes false.
  pub filterb-with_columns :
      (key : K) (f : C → C) (test : C → Bool) (rows : List (TableRow K C X))
      → ((c : C) → test (f c) ≡ false)
      → filterb (λ (r : TableRow K C X). test r.columns) (map (with_columns key f) rows)
        ≡ filterb
            (λ (r : TableRow K C X). test r.columns)
            (filterb (λ (r : TableRow K C X). not (e.beq r.key key)) rows)
  filterb-with_columns key f test [] h = refl
  filterb-with_columns key f test (r ∷ rows) h = elim (Bool-cases (e.beq r.key key)) [
    | inl same ↦ ground (arith, filterb-with_columns key f test rows h, h r.columns)
    | inr other ↦ ground (arith, filterb-with_columns key f test rows h)
  ]

  others_of :
      (key : K) (rows : List (TableRow K C X))
      → filterb
          (λ (r : TableRow K C X). e.beq r.key key)
          (filterb (λ (r : TableRow K C X). not (e.beq r.key key)) rows)
        ≡ []
  others_of key [] = refl
  others_of key (r ∷ rows) = elim (Bool-cases (e.beq r.key key)) [
    | inl same ↦ ground (arith, others_of key rows)
    | inr other ↦ ground (arith, others_of key rows)
  ]

  -- A row that is put is the only one of its key.
  pub row_answer-put_row :
      (key : K) (x : X) (columns : C) (rows : List (TableRow K C X))
      → row_answer (rows_of key) (row_effect (put_row key x columns) rows)
        ≡ record { key = key; contents = x; columns = columns } ∷ []
  unfolding row_answer row_effect
  row_answer-put_row key x columns rows = ground (
    arith,
    filterb-append (λ (r : TableRow K C X). e.beq r.key key)
        (filterb (λ (r : TableRow K C X). not (e.beq r.key key)) rows)
        (record { key = key; contents = x; columns = columns } ∷ []),
    others_of key rows,
    (e.beq_iff key key).1 refl,
  )

  pub first_contents-with_columns :
      (key other : K) (f : C → C) (rows : List (TableRow K C X))
      → first_contents
          (filterb (λ (r : TableRow K C X). e.beq r.key key) (map (with_columns other f) rows))
        ≡ first_contents (filterb (λ (r : TableRow K C X). e.beq r.key key) rows)
  first_contents-with_columns key other f [] = refl
  first_contents-with_columns key other f (r ∷ rows) =
      let rest = first_contents-with_columns key other f rows in
      elim (Bool-cases (e.beq r.key other)) [
        | inl chosen ↦ elim (Bool-cases (e.beq r.key key)) [
          | inl same ↦ ground (arith, rest)
          | inr not_same ↦ ground (arith, rest)
        ]
        | inr left ↦ ground (arith, rest)
      ]

module _ {K C A : Type 0} ⦃e : Eq K⦄ (store : Store K C A) (aad : K → Bytes) where
  pub first_record-with_columns :
      (key other : K) (f : C → C) (rows : List (TableRow K C Bytes))
      → first_record store aad key (row_answer (rows_of key) (map (with_columns other f) rows))
        ≡ first_record store aad key (row_answer (rows_of key) rows)
  unfolding first_record row_answer
  first_record-with_columns key other f [] = refl
  first_record-with_columns key other f (r ∷ rows) =
      let rest = first_record-with_columns key other f rows in
      elim (Bool-cases (e.beq r.key other)) [
        | inl chosen ↦ elim (Bool-cases (e.beq r.key key)) [
          | inl same ↦ ground (arith, rest)
          | inr not_same ↦ ground (arith, rest)
        ]
        | inr left ↦ ground (arith, rest)
      ]

  -- What the rows say of a key, for a query that is answered.
  abbrev pub stored : K → Session store.Conn → Result StoreError (Option A)
  stored key s = first_record store aad key (row_answer (rows_of key) (store.rows s.conn))

  pub fetch-stored :
      (key : K) (s : Session store.Conn) (found : List (TableRow K C Bytes))
      → store.query (rows_of key) s.conn ≡ some found
      → fetch store aad key s ≡ stored key s
  unfolding fetch
  fetch-stored key s found h =
      let first : fetch store aad key s ≡ first_record store aad key found = ground arith in
      first ∙ ap (first_record store aad key) (store.db.answers (rows_of key) s.conn found h)

  -- Whether or not it works, a change of columns leaves what is stored of every key.
  pub set_columns-stored :
      (key other : K) (f : C → C) (s : Session store.Conn)
      → stored key (run_statement store aad (set_columns other f) s).0 ≡ stored key s
  unfolding row_effect
  set_columns-stored key other f s = elim (run_statement_cases store aad (set_columns other f) s) [
    | inr (failed, same) ↦
        ap (λ rows. first_record store aad key (row_answer (rows_of key) rows)) same
    | inl (worked, changed) ↦
        ap (λ rows. first_record store aad key (row_answer (rows_of key) rows)) changed
        ∙ first_record-with_columns key other f (store.rows s.conn)
  ]
