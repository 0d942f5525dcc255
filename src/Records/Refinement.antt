-- ===== src/Records/Refinement.antt =====
-- The encrypted store against a table of the records in the clear: what each call does to it, in any
-- sequence of calls of which any may fail, and what the queries answer.
use mathlib.Core.Path.{subst}
use mathlib.Core.List.{Permᴰ}
use tgcryptfs.Crypto.Aead.{Bytes}
use tgcryptfs.Common.Dict.{Eq}
use tgcryptfs.Fuse.Store.{Session, StoreError, sql}
use tgcryptfs.Records.{
  TableRow, RowStatement, put_row, set_columns, delete_rows, row_effect, rows_of, rows_where,
  row_answer, Store, seal_record, open_record, run_statement, save, first_record, fetch,
  all_records, fetch_where, drawn_once, Changed,
}
use tgcryptfs.Records.Orders.{contents_of-Reordered}
use tgcryptfs.Records.Opening.{
  Opens, open_record-seal_record, put_row-Opens, set_columns-Opens, delete_rows-Opens,
  all_records-Opens, first_record-Opens, Opens-filterb, contents_of, first_contents,
}
use tgcryptfs.Common.{
  ◌≡◌, refl, sym, ap, ◌∙◌, ◌⊎◌, inl, inr, Bool, some, List, [], ◌∷◌, arith, if◌then◌else◌,
  Bool-cases, ok, err, is_ok, Result, filterb, Result-cases,
}

-- A call that changes the table.
pub data RecordCall (K C A : Type 0) : Type 0 where
  saves : K → C → A → RecordCall K C A
  changes : K → (C → C) → RecordCall K C A
  deletes : K → RecordCall K C A

module _ {K C A : Type 0} ⦃e : Eq K⦄ where
  -- What the call means for the records in the clear.
  unfoldable pub meant : RecordCall K C A → List (TableRow K C A) → List (TableRow K C A)
  meant (saves key columns a) plain = row_effect (put_row key a columns) plain
  meant (changes key f) plain = row_effect (set_columns key f) plain
  meant (deletes key) plain = row_effect (delete_rows key) plain

module _ {K C A : Type 0} ⦃e : Eq K⦄ (store : Store K C A) (aad : K → Bytes) where
  abbrev pub rows_in : Session store.Conn → List (TableRow K C Bytes)
  rows_in s = store.rows s.conn

  unfoldable pub perform : RecordCall K C A → Session store.Conn → Changed store aad
  perform (saves key columns a) s = save store aad key columns a s
  perform (changes key f) s = run_statement store aad (set_columns key f) s
  perform (deletes key) s = run_statement store aad (delete_rows key) s

  pub run_statement_cases :
      (statement : RowStatement K C Bytes) (s : Session store.Conn)
      → ((run_statement store aad statement s).1 ≡ ok tt)
          × (rows_in (run_statement store aad statement s).0 ≡ row_effect statement (rows_in s))
        ⊎ ((failure : StoreError) × ((run_statement store aad statement s).1 ≡ err failure))
          × (rows_in (run_statement store aad statement s).0 ≡ rows_in s)
  unfolding run_statement
  run_statement_cases statement s = elim (Bool-cases (store.execute statement s.conn).1) [
    | inl worked ↦ inl (rw worked refl, store.db.executes statement s.conn worked)
    | inr failed ↦ inr ((sql, rw failed refl), store.db.refuses statement s.conn failed)
  ]

  sealed_lem :
      (key : K) (columns : C) (a : A) (s : Session store.Conn) (contents : Bytes)
      → seal_record store aad s.drawn key a ≡ ok contents
      → save store aad key columns a s
        ≡ run_statement store aad (put_row key contents columns) (drawn_once store aad s)
  unfolding save
  sealed_lem key columns a s contents h = rw (h, save) refl

  unsealed_lem :
      (key : K) (columns : C) (a : A) (s : Session store.Conn) (failure : StoreError)
      → seal_record store aad s.drawn key a ≡ err failure
      → save store aad key columns a s ≡ (drawn_once store aad s, err failure)
  unfolding save
  unsealed_lem key columns a s failure h = rw (h, save) refl

  -- The record is put in a form that opens again, or no row changes.
  pub save_cases :
      (key : K) (columns : C) (a : A) (s : Session store.Conn)
      → ((contents : Bytes) × (open_record store aad key contents ≡ ok a)
          × ((save store aad key columns a s).1 ≡ ok tt)
          × (rows_in (save store aad key columns a s).0
              ≡ row_effect (put_row key contents columns) (rows_in s)))
        ⊎ ((failure : StoreError) × ((save store aad key columns a s).1 ≡ err failure))
          × (rows_in (save store aad key columns a s).0 ≡ rows_in s)
  save_cases key columns a s = elim (Result-cases (seal_record store aad s.drawn key a)) [
    | inr (failure, f) ↦ rw (unsealed_lem key columns a s failure f) (inr ((failure, refl), refl))
    | inl (contents, f) ↦
        rw (sealed_lem key columns a s contents f)
          (elim (run_statement_cases (put_row key contents columns) (drawn_once store aad s)) [
            | inr (failed, same) ↦ inr (failed, same)
            | inl (worked, changed) ↦ inl (
              contents,
              open_record-seal_record store aad s.drawn key a contents f,
              worked,
              changed,
            )
          ])
  ]

  abbrev pub Performs : RecordCall K C A → List (TableRow K C A) → Changed store aad → Type 0
  Performs call plain after =
      (after.1 ≡ ok tt) × Opens store aad (rows_in after.0) (meant call plain)
      ⊎ ((failure : StoreError) × (after.1 ≡ err failure)) × Opens store aad (rows_in after.0) plain

  statement-Performs :
      (call : RecordCall K C A) (statement : RowStatement K C Bytes) (s : Session store.Conn)
      (plain : List (TableRow K C A))
      → Opens store aad (rows_in s) plain
      → Opens store aad (row_effect statement (rows_in s)) (meant call plain)
      → Performs call plain (run_statement store aad statement s)
  statement-Performs call statement s plain before after = elim (run_statement_cases statement s) [
    | inl (worked, changed) ↦
        inl (worked, subst (λ rows. Opens store aad rows (meant call plain)) (sym changed) after)
    | inr (failed, same) ↦
        inr (failed, subst (λ rows. Opens store aad rows plain) (sym same) before)
  ]

  -- One call, answered Ok, does to the records in the clear what it means; one that fails leaves them.
  pub perform-Performs :
      (call : RecordCall K C A) (s : Session store.Conn) (plain : List (TableRow K C A))
      → Opens store aad (rows_in s) plain
      → Performs call plain (perform call s)
  unfolding perform meant
  perform-Performs (changes key f) s plain h =
      statement-Performs (changes key f) (set_columns key f) s plain h
        (set_columns-Opens store aad key f (rows_in s) plain h)
  perform-Performs (deletes key) s plain h =
      statement-Performs (deletes key) (delete_rows key) s plain h
        (delete_rows-Opens store aad key (rows_in s) plain h)
  perform-Performs (saves key columns a) s plain h = elim (save_cases key columns a s) [
    | inr (failed, same) ↦ inr (failed, subst (λ rows. Opens store aad rows plain) (sym same) h)
    | inl (contents, opened, worked, changed) ↦ inl (
      worked,
      subst (λ rows. Opens store aad rows (row_effect (put_row key a columns) plain)) (sym changed)
          (put_row-Opens store aad key columns a contents (rows_in s) plain opened h),
    )
  ]

  -- The calls one after the other, whatever each answers.
  unfoldable pub run_calls : List (RecordCall K C A) → Session store.Conn → Session store.Conn
  run_calls [] s = s
  run_calls (call ∷ calls) s = run_calls calls (perform call s).0

  -- The records in the clear after those of the calls that are answered Ok.
  unfoldable pub answered :
      List (RecordCall K C A) → Session store.Conn → List (TableRow K C A) → List (TableRow K C A)
  answered [] s plain = plain
  answered (call ∷ calls) s plain =
      let after = perform call s in
      answered calls after.0 (if is_ok after.1 then meant call plain else plain)

  pub run_calls-Opens :
      (calls : List (RecordCall K C A)) (s : Session store.Conn) (plain : List (TableRow K C A))
      → Opens store aad (rows_in s) plain
      → Opens store aad (rows_in (run_calls calls s)) (answered calls s plain)
  unfolding run_calls answered
  run_calls-Opens [] s plain h = h
  run_calls-Opens (call ∷ calls) s plain h = elim (perform-Performs call s plain h) [
    | inl (worked, after) ↦
        rw worked (run_calls-Opens calls (perform call s).0 (meant call plain) after)
    | inr ((failure, failed), after) ↦
        rw failed (run_calls-Opens calls (perform call s).0 plain after)
  ]

  pub fetch-Opens :
      (key : K) (s : Session store.Conn) (plain : List (TableRow K C A))
      (found : List (TableRow K C Bytes))
      → Opens store aad (rows_in s) plain
      → store.query (rows_of key) s.conn ≡ some found
      → fetch store aad key s ≡ ok (first_contents (row_answer (rows_of key) plain))
  unfolding fetch
  fetch-Opens key s plain found h answer =
      let first : fetch store aad key s ≡ first_record store aad key found = ground arith in
      first
      ∙ ap (first_record store aad key) (store.db.answers (rows_of key) s.conn found answer)
      ∙ first_record-Opens store aad key (rows_in s) plain h

  -- The records that pass the test, each as often as the table has it, in some order.
  abbrev pub AnswersAnyOrder :
      (C → Bool) → List (TableRow K C A) → Result StoreError (List A) → Type 0
  AnswersAnyOrder test plain answer =
      (listed : List A) × Permᴰ (contents_of (row_answer (rows_where test) plain)) listed
      × (answer ≡ ok listed)

  pub fetch_where-Opens :
      (test : C → Bool) (s : Session store.Conn) (plain : List (TableRow K C A))
      (found : List (TableRow K C Bytes))
      → Opens store aad (rows_in s) plain
      → store.query (rows_where test) s.conn ≡ some found
      → AnswersAnyOrder test plain (fetch_where store aad test s)
  unfolding fetch_where row_answer
  fetch_where-Opens test s plain found h answer =
      let all : fetch_where store aad test s ≡ all_records store aad found = ground arith in
      let chosen = filterb (λ (r : TableRow K C A). test r.columns) plain in
      let (ordered, order, opens) =
        contents_of-Reordered store aad chosen
          (store.db.answers (rows_where test) s.conn found answer)
          (Opens-filterb store aad (λ k c. test c) (rows_in s) plain h) in
      (contents_of ordered, order, all ∙ all_records-Opens store aad found ordered opens)

  -- Start from a table whose rows open to the records `plain`, and run any calls that save, change or
  -- delete, each of which may fail. If SQLite then answers the two queries, `fetch` gives the record
  -- under its key, and `fetch_where` the records that pass its test, in some order, of the table in
  -- the clear on which only the calls answered Ok were done.
  pub run_calls-answered :
      (calls : List (RecordCall K C A)) (s : Session store.Conn) (plain : List (TableRow K C A))
      (key : K) (test : C → Bool) (found listed : List (TableRow K C Bytes))
      → Opens store aad (rows_in s) plain
      → store.query (rows_of key) (run_calls calls s).conn ≡ some found
      → store.query (rows_where test) (run_calls calls s).conn ≡ some listed
      → (fetch store aad key (run_calls calls s)
          ≡ ok (first_contents (row_answer (rows_of key) (answered calls s plain))))
        × AnswersAnyOrder test
            (answered calls s plain)
            (fetch_where store aad test (run_calls calls s))
  run_calls-answered calls s plain key test found listed h one many =
      let after = run_calls-Opens calls s plain h in
      (
        fetch-Opens key (run_calls calls s) (answered calls s plain) found after one,
        fetch_where-Opens test (run_calls calls s) (answered calls s plain) listed after many,
      )
