-- ===== src/Fuse/Store/Update.antt =====
-- What the store gives back of an inode that it has updated.
use tgcryptfs.Crypto.Aead.{Bytes}
use tgcryptfs.Fuse.Inode.{Inode}
use tgcryptfs.Fuse.Database.{Row, by_ino, selects, select, set_row}
use tgcryptfs.Fuse.Store.{Env, Session, opened_inode, first_inode, get_inode, update_inode}
use tgcryptfs.Fuse.Store.Steps.{table_of, update_inode_cases, update_row_effect}
use tgcryptfs.Fuse.Store.RoundTrip.{opened_inode-sealed_inode}
use tgcryptfs.Common.{
  ℕ, ◌≡◌, refl, sym, ap, ◌∙◌, inl, inr, true, some, List, [], ◌∷◌, map, arith, ◌==◌, ==_iff,
  Bool-cases, Option-cases, ok,
}

select-set_row :
    (ino parent : ℕ) (name_hash contents : Bytes) (rows : List Row)
    → select (by_ino ino) (map (set_row ino parent name_hash contents) rows)
      ≡ map (set_row ino parent name_hash contents) (select (by_ino ino) rows)
unfolding selects
select-set_row ino parent name_hash contents [] = refl
select-set_row ino parent name_hash contents (r ∷ rows) =
    ground (arith, select-set_row ino parent name_hash contents rows)

-- All rows that a query by number finds have the number.
selected_ino :
    (ino : ℕ) (rows : List Row) (r : Row) (rest : List Row)
    → select (by_ino ino) rows ≡ r ∷ rest
    → (r.ino == ino) ≡ true
unfolding selects
selected_ino ino [] r rest h = absurd (ground arith)
selected_ino ino (x ∷ rows) r rest h = elim (Bool-cases (x.ino == ino)) [
  | inl e ↦ ground arith
  | inr e ↦ selected_ino ino rows r rest (ground arith)
]

module _ (env : Env) where
  -- A `get` that finds an inode has had a row.
  found_rows :
      (ino : ℕ) (i : Inode) (fs : Session env.Conn)
      → get_inode env ino fs ≡ ok (some i)
      → (r : Row) × (rest : List Row) × (select (by_ino ino) (table_of env fs).rows ≡ r ∷ rest)
  unfolding get_inode first_inode
  found_rows ino i fs h = elim (Option-cases (env.query (by_ino ino) fs.conn)) [
    | inl e ↦ absurd (ground arith)
    | inr ([], e) ↦ absurd (ground arith)
    | inr (r ∷ rest, e) ↦ (r, rest, sym (env.db.answers (by_ino ino) fs.conn (r ∷ rest) e))
  ]

  -- If `get` finds an inode under a number and `update` of an inode of that number works, then
  -- `get` gives back the updated inode, whenever SQLite answers its query.
  pub get_inode-update_inode :
      (ino : ℕ) (old i : Inode) (fs : Session env.Conn) (rows : List Row)
      → i.ino ≡ ino
      → get_inode env ino fs ≡ ok (some old)
      → (update_inode env i fs).1 ≡ ok tt
      → env.query (by_ino ino) (update_inode env i fs).0.conn ≡ some rows
      → get_inode env ino (update_inode env i fs).0 ≡ ok (some i)
  unfolding get_inode first_inode
  get_inode-update_inode ino old i fs rows number there worked asked =
      elim (update_inode_cases env i fs) [
        | inr ((e, failed), _) ↦ absurd (ground arith)
        | inl (contents, sealed, (_, did)) ↦
            let after = (update_inode env i fs).0 in
            let name = env.hash i.name in
            let (set, _) =
              update_row_effect i.ino i.parent name contents (table_of env fs) (table_of env after)
                did in
            let (r, rest, had) = found_rows ino old fs there in
            let matches : (r.ino == ino) ≡ true =
              selected_ino ino (table_of env fs).rows r rest had in
            let now : rows ≡ map (set_row ino i.parent name contents) (r ∷ rest) =
              env.db.answers (by_ino ino) after.conn rows asked
              ∙ ap (select (by_ino ino)) (
                  set
                  ∙ ap (λ n. map (set_row n i.parent name contents) (table_of env fs).rows) number)
              ∙ select-set_row ino i.parent name contents (table_of env fs).rows
              ∙ ap (map (set_row ino i.parent name contents)) had in
            let opened : opened_inode env r.ino contents ≡ ok i =
              ap (λ n. opened_inode env n contents) ((==_iff r.ino ino).0 matches ∙ sym number)
              ∙ opened_inode-sealed_inode env fs.drawn i contents sealed in
            rw (asked, now, matches, opened) refl
      ]
