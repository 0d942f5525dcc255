-- ===== src/Sharing/Store/Steps.antt =====
-- What a change does to the rows, and what is found of a record that was put.
use tgcryptfs.Crypto.Aead.{Bytes, encrypt, decrypt-encrypt}
use tgcryptfs.Common.Dict.{list_beq, list_beq_iff, list_eq, nat_eq}
use tgcryptfs.Fuse.Store.{Session, StoreError, sql, to_sql}
use tgcryptfs.Sharing.{Invite}
use tgcryptfs.Sharing.Database.{
  Entry, Entries, Change, change, put_invite, put_entry, with_key, deactivated, invite_by_id,
  find_entries,
}
use tgcryptfs.Sharing.Store.{
  Env, seal_record, open_record, first_record, run_change, put_sealed, invite_aad, invite_row,
  insert_invite, get_invite, drawn_once,
}
use tgcryptfs.Common.{
  ℕ, ◌≡◌, refl, sym, ap, ◌∙◌, ◌⊎◌, inl, inr, not, Option, none, some, List, [], ◌∷◌, ◌++◌, map,
  arith, Bool-cases, Option-cases, Result, ok, err, filterb, Result-cases,
}

with_key-append :
    (key : Bytes) (rows more : List Entry)
    → with_key key (rows ++ more) ≡ with_key key rows ++ with_key key more
with_key-append key [] more = refl
with_key-append key (x ∷ rows) more = ground (arith, with_key-append key rows more)

with_key-others :
    (key : Bytes) (rows : List Entry)
    → with_key key (filterb (λ (x : Entry). not (list_beq x.key key)) rows) ≡ []
with_key-others key [] = refl
with_key-others key (x ∷ rows) = elim (Bool-cases (list_beq x.key key)) [
  | inl e ↦ ground (arith, with_key-others key rows)
  | inr e ↦ ground (arith, with_key-others key rows)
]

-- A row that is put is the only one under its key.
pub with_key-put_entry :
    (r : Entry) (rows : List Entry) → with_key r.key (put_entry r rows) ≡ r ∷ []
with_key-put_entry r rows = ground (
  arith,
  with_key-append r.key (filterb (λ (x : Entry). not (list_beq x.key r.key)) rows) (r ∷ []),
  with_key-others r.key rows,
  (list_beq_iff r.key r.key).1 refl,
)

pub with_key-deactivated :
    (key other : Bytes) (rows : List Entry)
    → with_key key (map (deactivated other) rows) ≡ map (deactivated other) (with_key key rows)
with_key-deactivated key other [] = refl
with_key-deactivated key other (x ∷ rows) = ground (arith, with_key-deactivated key other rows)

module _ (env : Env) where
  abbrev pub entries_of : Session env.Conn → Entries
  entries_of s = env.entries s.conn

  pub open_record-seal_record :
      {A : Type 0} (deserialize : Bytes → Option A) (aad : Bytes) (n : ℕ) (bytes contents : Bytes)
      (a : A)
      → deserialize bytes ≡ some a
      → seal_record env aad n (some bytes) ≡ ok contents
      → open_record env deserialize aad contents ≡ ok a
  unfolding seal_record open_record
  open_record-seal_record deserialize aad n bytes contents a d h =
      let sealed : encrypt env.cipher (env.nonce n) env.meta_key bytes aad ≡ ok contents =
        ground arith in
      rw
        (
          decrypt-encrypt env.cipher (env.nonce n) env.meta_key bytes aad contents (env.sized n)
              sealed,
          d,
          open_record,
        )
        refl

  -- The record of a row does not depend on whether the row is active.
  pub first_record-deactivated :
      {A : Type 0} (deserialize : Bytes → Option A) (aad key : Bytes) (rows : List Entry)
      → first_record env deserialize aad (map (deactivated key) rows)
        ≡ first_record env deserialize aad rows
  unfolding first_record
  first_record-deactivated deserialize aad key [] = refl
  first_record-deactivated deserialize aad key (r ∷ rows) = elim (Bool-cases (list_beq r.key key)) [
    | inl e ↦ rw e refl
    | inr e ↦ rw e refl
  ]

  -- A change that works has its effect, and one that fails has none.
  pub run_change_cases :
      (c : Change) (s : Session env.Conn)
      → ((run_change env c s).1 ≡ ok tt)
          × (entries_of (run_change env c s).0 ≡ change c (entries_of s))
        ⊎ ((e : StoreError) × ((run_change env c s).1 ≡ err e))
          × (entries_of (run_change env c s).0 ≡ entries_of s)
  unfolding run_change
  run_change_cases c s = elim (Bool-cases (env.execute c s.conn).1) [
    | inl e ↦ inl (rw e refl, env.db.executes c s.conn e)
    | inr e ↦ inr ((sql, rw e refl), env.db.refuses c s.conn e)
  ]

  sealed_lem :
      (aad bytes contents : Bytes) (put : Bytes → Change) (s : Session env.Conn)
      → seal_record env aad s.drawn (some bytes) ≡ ok contents
      → put_sealed env aad (some bytes) put s ≡ run_change env (put contents) (drawn_once env s)
  unfolding put_sealed
  sealed_lem aad bytes contents put s h = rw (h, put_sealed) refl

  unsealed_lem :
      (aad : Bytes) (serialized : Option Bytes) (put : Bytes → Change) (s : Session env.Conn)
      (e : StoreError)
      → seal_record env aad s.drawn serialized ≡ err e
      → put_sealed env aad serialized put s ≡ (drawn_once env s, err e)
  unfolding put_sealed
  unsealed_lem aad serialized put s e h = rw (h, put_sealed) refl

  -- The record is stored in a form that opens again, or nothing changes.
  pub put_sealed_cases :
      {A : Type 0} (deserialize : Bytes → Option A) (aad : Bytes) (serialized : Option Bytes)
      (a : A) (put : Bytes → Change) (s : Session env.Conn)
      → ((bytes : Bytes) → serialized ≡ some bytes → deserialize bytes ≡ some a)
      → ((contents : Bytes) × (open_record env deserialize aad contents ≡ ok a)
          × ((put_sealed env aad serialized put s).1 ≡ ok tt)
          × (entries_of (put_sealed env aad serialized put s).0
              ≡ change (put contents) (entries_of s)))
        ⊎ ((e : StoreError) × ((put_sealed env aad serialized put s).1 ≡ err e))
          × (entries_of (put_sealed env aad serialized put s).0 ≡ entries_of s)
  unfolding seal_record
  put_sealed_cases deserialize aad none a put s d =
      let failed = unsealed_lem aad none put s to_sql refl in
      inr ((to_sql, rw failed refl), rw failed refl)
  put_sealed_cases deserialize aad (some bytes) a put s d =
      elim (Result-cases (seal_record env aad s.drawn (some bytes))) [
        | inr (e, f) ↦
            let failed = unsealed_lem aad (some bytes) put s e f in
            inr ((e, rw failed refl), rw failed refl)
        | inl (contents, f) ↦
            rw (sealed_lem aad bytes contents put s f)
              (elim (run_change_cases (put contents) (drawn_once env s)) [
                | inr (failed, same) ↦ inr (failed, same)
                | inl (done, changed) ↦ inl (
                  contents,
                  open_record-seal_record deserialize aad s.drawn bytes contents a (d bytes refl) f,
                  done,
                  changed,
                )
              ])
      ]

  -- What the rows say of an invite, for a query that is answered.
  abbrev pub stored_invite : Bytes → Entries → Result StoreError (Option Invite)
  stored_invite invite_id t =
      first_record env env.deserialize_invite (invite_aad invite_id) (with_key invite_id t.invites)

  pub get_invite-stored :
      (invite_id : Bytes) (s : Session env.Conn) (found : Option Invite)
      → get_invite env invite_id s ≡ ok found
      → stored_invite invite_id (entries_of s) ≡ ok found
  unfolding get_invite find_entries
  get_invite-stored invite_id s found h =
      elim (Option-cases (env.query (invite_by_id invite_id) s.conn)) [
        | inl e ↦ absurd (ground arith)
        | inr (rows, e) ↦
            let rows_are = env.db.answers (invite_by_id invite_id) s.conn rows e in
            rw (sym rows_are) (ground arith)
      ]

  -- An invite that is inserted is the one stored under its id, or nothing changes.
  pub insert_invite_cases :
      (i : Invite) (s : Session env.Conn)
      → ((insert_invite env i s).1 ≡ ok tt)
          × (stored_invite i.invite_id (entries_of (insert_invite env i s).0) ≡ ok (some i))
        ⊎ ((e : StoreError) × ((insert_invite env i s).1 ≡ err e))
          × (entries_of (insert_invite env i s).0 ≡ entries_of s)
  unfolding insert_invite first_record change
  insert_invite_cases i s =
      elim (put_sealed_cases env.deserialize_invite (invite_aad i.invite_id)
        (env.serialize_invite i) i (λ contents. put_invite (invite_row i contents)) s
        (env.deserializes_invite i)) [
          | inr (failed, same) ↦ inr (failed, same)
          | inl (contents, opens, done, changed) ↦ inl (
            done,
            ap (stored_invite i.invite_id) changed
                ∙ rw (with_key-put_entry (invite_row i contents) (entries_of s).invites, opens)
                    refl,
          )
        ]
