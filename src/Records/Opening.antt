-- ===== src/Records/Opening.antt =====
-- The table of encrypted records and the table of the records in the clear that it opens to.
use mathlib.Core.Path.{subst}
use tgcryptfs.Crypto.Aead.{Bytes, encrypt, decrypt-encrypt}
use tgcryptfs.Common.Dict.{Eq}
use tgcryptfs.Records.{
  TableRow, with_columns, put_row, set_columns, delete_rows, row_effect, rows_of, row_answer, Store,
  seal_record, open_record, first_record, all_records,
}
use tgcryptfs.Common.{
  ℕ, ◌≡◌, refl, ap, ◌∙◌, inl, inr, Bool, not, Option, none, some, List, [], ◌∷◌, ◌++◌, map, arith,
  Bool-cases, Option-cases, ok, filterb,
}

abbrev pub first_contents : {K C X : Type 0} → List (TableRow K C X) → Option X
first_contents [] = none
first_contents (r ∷ _) = some r.contents

abbrev pub contents_of : {K C X : Type 0} → List (TableRow K C X) → List X
contents_of [] = []
contents_of (r ∷ rows) = r.contents ∷ contents_of rows

module _ {K C A : Type 0} ⦃e : Eq K⦄ (store : Store K C A) (aad : K → Bytes) where
  pub open_record-seal_record :
      (n : ℕ) (key : K) (a : A) (contents : Bytes)
      → seal_record store aad n key a ≡ ok contents
      → open_record store aad key contents ≡ ok a
  unfolding seal_record open_record
  open_record-seal_record n key a contents h = elim (Option-cases (store.serialize a)) [
    | inl none_is ↦ absurd (ground arith)
    | inr (bytes, is) ↦
        let sealed : encrypt store.cipher (store.nonce n) store.meta_key bytes (aad key)
            ≡ ok contents =
          ground arith in
        rw
          (
            decrypt-encrypt store.cipher (store.nonce n) store.meta_key bytes (aad key) contents
                (store.sized n) sealed,
            store.deserializes a bytes is,
            open_record,
          )
          refl
  ]

  -- The keys and columns are the same, and the record opens to the one in the clear.
  abbrev pub OpensTo : TableRow K C Bytes → TableRow K C A → Type 0
  OpensTo r p =
      (r.key ≡ p.key)
      × (r.columns ≡ p.columns)
      × (open_record store aad r.key r.contents ≡ ok p.contents)

  -- This holds row by row.
  abbrev pub Opens : List (TableRow K C Bytes) → List (TableRow K C A) → Type 0
  Opens [] [] = Unit
  Opens [] (p ∷ plain) = ⊥
  Opens (r ∷ rows) [] = ⊥
  Opens (r ∷ rows) (p ∷ plain) = OpensTo r p × Opens rows plain

  Opens-append :
      (rows more : List (TableRow K C Bytes)) (plain others : List (TableRow K C A))
      → Opens rows plain
      → Opens more others
      → Opens (rows ++ more) (plain ++ others)
  Opens-append [] more [] others h k = k
  Opens-append [] more (p ∷ plain) others h k = absurd h
  Opens-append (r ∷ rows) more [] others h k = absurd h
  Opens-append (r ∷ rows) more (p ∷ plain) others ((a, b, c), h) k =
      ((a, b, c), Opens-append rows more plain others h k)

  -- A choice of rows by their keys and columns chooses the same records on both sides.
  pub Opens-filterb :
      (test : K → C → Bool) (rows : List (TableRow K C Bytes)) (plain : List (TableRow K C A))
      → Opens rows plain
      → Opens
          (filterb (λ (r : TableRow K C Bytes). test r.key r.columns) rows)
          (filterb (λ (r : TableRow K C A). test r.key r.columns) plain)
  Opens-filterb test [] [] h = tt
  Opens-filterb test [] (p ∷ plain) h = absurd h
  Opens-filterb test (r ∷ rows) [] h = absurd h
  Opens-filterb test (r ∷ rows) (p ∷ plain) ((a, b, c), h) =
      let same : test r.key r.columns ≡ test p.key p.columns = cc in
      elim (Bool-cases (test p.key p.columns)) [
        | inl chosen ↦ rw (same, chosen) ((a, b, c), Opens-filterb test rows plain h)
        | inr not_chosen ↦ rw (same, not_chosen) (Opens-filterb test rows plain h)
      ]

  Opens-with_columns :
      (key : K) (f : C → C) (rows : List (TableRow K C Bytes)) (plain : List (TableRow K C A))
      → Opens rows plain
      → Opens (map (with_columns key f) rows) (map (with_columns key f) plain)
  Opens-with_columns key f [] [] h = tt
  Opens-with_columns key f [] (p ∷ plain) h = absurd h
  Opens-with_columns key f (r ∷ rows) [] h = absurd h
  Opens-with_columns key f (r ∷ rows) (p ∷ plain) ((a, b, c), h) =
      let same : e.beq r.key key ≡ e.beq p.key key = cc in
      elim (Bool-cases (e.beq p.key key)) [
        | inl chosen ↦ rw (same, chosen) ((a, ap f b, c), Opens-with_columns key f rows plain h)
        | inr not_chosen ↦ rw (same, not_chosen) ((a, b, c), Opens-with_columns key f rows plain h)
      ]

  pub all_records-Opens :
      (rows : List (TableRow K C Bytes)) (plain : List (TableRow K C A))
      → Opens rows plain
      → all_records store aad rows ≡ ok (contents_of plain)
  unfolding all_records
  all_records-Opens [] [] h = refl
  all_records-Opens [] (p ∷ plain) h = absurd h
  all_records-Opens (r ∷ rows) [] h = absurd h
  all_records-Opens (r ∷ rows) (p ∷ plain) ((a, b, c), h) =
      rw (c, all_records-Opens rows plain h) refl

  pub first_record-Opens :
      (key : K) (rows : List (TableRow K C Bytes)) (plain : List (TableRow K C A))
      → Opens rows plain
      → first_record store aad key (row_answer (rows_of key) rows)
        ≡ ok (first_contents (row_answer (rows_of key) plain))
  unfolding first_record row_answer
  first_record-Opens key [] [] h = refl
  first_record-Opens key [] (p ∷ plain) h = absurd h
  first_record-Opens key (r ∷ rows) [] h = absurd h
  first_record-Opens key (r ∷ rows) (p ∷ plain) ((a, b, c), h) =
      let same : e.beq r.key key ≡ e.beq p.key key = cc in
      elim (Bool-cases (e.beq p.key key)) [
        | inr other ↦ rw (same, other) (first_record-Opens key rows plain h)
        | inl equal ↦
            let is_key : r.key ≡ key = (e.beq_iff r.key key).0 (same ∙ equal) in
            let opened : open_record store aad key r.contents ≡ ok p.contents =
              subst (λ k. open_record store aad k r.contents ≡ ok p.contents) is_key c in
            rw (same, equal) (rw opened refl)
      ]

  -- What a statement does to the sealed rows, it does to the records in the clear.
  pub put_row-Opens :
      (key : K) (columns : C) (a : A) (contents : Bytes) (rows : List (TableRow K C Bytes))
      (plain : List (TableRow K C A))
      → open_record store aad key contents ≡ ok a
      → Opens rows plain
      → Opens
          (row_effect (put_row key contents columns) rows)
          (row_effect (put_row key a columns) plain)
  unfolding row_effect
  put_row-Opens key columns a contents rows plain opened h =
      Opens-append (filterb (λ (r : TableRow K C Bytes). not (e.beq r.key key)) rows)
        (record { key = key; contents = contents; columns = columns } ∷ [])
        (filterb (λ (r : TableRow K C A). not (e.beq r.key key)) plain)
        (record { key = key; contents = a; columns = columns } ∷ [])
        (Opens-filterb (λ k c. not (e.beq k key)) rows plain h) ((refl, refl, opened), tt)

  pub set_columns-Opens :
      (key : K) (f : C → C) (rows : List (TableRow K C Bytes)) (plain : List (TableRow K C A))
      → Opens rows plain
      → Opens (row_effect (set_columns key f) rows) (row_effect (set_columns key f) plain)
  unfolding row_effect
  set_columns-Opens key f rows plain h = Opens-with_columns key f rows plain h

  pub delete_rows-Opens :
      (key : K) (rows : List (TableRow K C Bytes)) (plain : List (TableRow K C A))
      → Opens rows plain
      → Opens (row_effect (delete_rows key) rows) (row_effect (delete_rows key) plain)
  unfolding row_effect
  delete_rows-Opens key rows plain h = Opens-filterb (λ k c. not (e.beq k key)) rows plain h
