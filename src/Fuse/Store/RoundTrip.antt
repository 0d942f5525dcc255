-- ===== src/Fuse/Store/RoundTrip.antt =====
-- What the store gives back of an inode that it has inserted.
use tgcryptfs.Crypto.Aead.{Bytes, encrypt, decrypt-encrypt}
use tgcryptfs.Common.Dict.{list_beq_iff, list_eq, nat_eq}
use tgcryptfs.Fuse.Inode.{Inode}
use tgcryptfs.Fuse.Database.{
  Row, Query, by_ino, by_name, selects, select, conflicts, effect, insert_row,
}
use tgcryptfs.Fuse.Store.{
  Env, Session, inode_aad, sealed_inode, opened_inode, insert_inode, first_inode, get_inode,
  lookup_inode,
}
use tgcryptfs.Fuse.Store.Steps.{table_of, row_of, insert_inode_cases, insert_row_effect}
use tgcryptfs.Common.{
  ℕ, ◌≡◌, refl, ap, ◌∙◌, inl, inr, Bool, true, some, List, [], ◌∷◌, ◌++◌, arith, Bool-cases,
  Option-cases, ok, is_empty, filterb, filterb-append,
}

filterb_none :
    {A : Type 0} (p q : A → Bool)
    → ((x : A) → q x ≡ true → p x ≡ true)
    → (xs : List A) → is_empty (filterb p xs) ≡ true
    → filterb q xs ≡ []
filterb_none p q f [] h = refl
filterb_none p q f (x ∷ xs) h = elim (Bool-cases (q x)) [
  | inl e ↦ absurd (ground (arith, f x e))
  | inr e ↦ ground (arith, filterb_none p q f xs)
]

-- A query that the new row meets, and that only rows in conflict with it meet, finds it alone.
select_new :
    (q : Query) (r : Row) (rows : List Row)
    → selects q r ≡ true
    → ((x : Row) → selects q x ≡ true → conflicts r x ≡ true)
    → is_empty (filterb (conflicts r) rows) ≡ true
    → select q (rows ++ r ∷ []) ≡ r ∷ []
select_new q r rows met only free =
    rw
      (
        filterb-append (selects q) rows (r ∷ []),
        filterb_none (conflicts r) (selects q) only rows free,
      )
      (ground (arith, met))

module _ (env : Env) where
  -- An encrypted inode opens under its number as the inode.
  pub opened_inode-sealed_inode :
      (n : ℕ) (i : Inode) (contents : Bytes)
      → sealed_inode env n i ≡ ok contents
      → opened_inode env i.ino contents ≡ ok i
  unfolding sealed_inode opened_inode
  opened_inode-sealed_inode n i contents h = elim (Option-cases (env.serialize i)) [
    | inl e ↦ absurd (ground arith)
    | inr (bytes, e) ↦
        let sealed : encrypt env.cipher (env.nonce n) env.meta_key bytes (inode_aad i.ino)
            ≡ ok contents =
          ground arith in
        ground (
          arith,
          decrypt-encrypt env.cipher (env.nonce n) env.meta_key bytes (inode_aad i.ino) contents
              (env.sized n) sealed,
          env.deserializes i bytes e,
        )
  ]

  found_row :
      (n : ℕ) (i : Inode) (contents : Bytes)
      → sealed_inode env n i ≡ ok contents
      → first_inode env (row_of env i contents ∷ []) ≡ ok (some i)
  unfolding first_inode
  found_row n i contents h = rw (opened_inode-sealed_inode n i contents h) refl

  module _ (i : Inode) (fs : Session env.Conn) where
    abbrev inserted : Session env.Conn
    inserted = (insert_inode env i fs).0

    answered :
        (q : Query) (rows : List Row) (contents : Bytes)
        → sealed_inode env fs.drawn i ≡ ok contents
        → effect (insert_row (row_of env i contents)) (table_of env fs)
          ≡ some (table_of env inserted)
        → selects q (row_of env i contents) ≡ true
        → ((x : Row) → selects q x ≡ true → conflicts (row_of env i contents) x ≡ true)
        → env.query q inserted.conn ≡ some rows
        → first_inode env rows ≡ ok (some i)
    answered q rows contents sealed worked met only asked =
        let (free, now, _) =
          insert_row_effect (row_of env i contents) (table_of env fs) (table_of env inserted)
            worked in
        let here : rows ≡ row_of env i contents ∷ [] =
          env.db.answers q inserted.conn rows asked
          ∙ ap (select q) now
          ∙ select_new q (row_of env i contents) (table_of env fs).rows met only free in
        rw here (found_row fs.drawn i contents sealed)

    -- If `insert` of an inode works, then `get` of its number and `lookup` of its name in its
    -- parent give back that inode, whenever SQLite answers their queries.
    pub get_inode-insert_inode :
        (rows names : List Row)
        → (insert_inode env i fs).1 ≡ ok tt
        → env.query (by_ino i.ino) (insert_inode env i fs).0.conn ≡ some rows
        → env.query (by_name i.parent (env.hash i.name)) (insert_inode env i fs).0.conn ≡ some names
        → (get_inode env i.ino (insert_inode env i fs).0 ≡ ok (some i))
          × (lookup_inode env i.parent i.name (insert_inode env i fs).0 ≡ ok (some i))
    unfolding get_inode lookup_inode selects conflicts
    get_inode-insert_inode rows names worked asked named = elim (insert_inode_cases env i fs) [
      | inl (contents, sealed, (_, did)) ↦ (
        rw asked (
            answered (by_ino i.ino) rows contents sealed did (ground arith) (λ x h. ground arith)
              asked),
        rw named (
            answered (by_name i.parent (env.hash i.name)) names contents sealed did
              (ground (arith, list_beq_iff (env.hash i.name) (env.hash i.name)))
              (λ x h. ground arith) named),
      )
      | inr ((e, failed), _) ↦ absurd (ground arith)
    ]
