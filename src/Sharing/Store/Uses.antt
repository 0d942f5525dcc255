-- ===== src/Sharing/Store/Uses.antt =====
-- What a use and a revocation leave of a stored invite.
use mathlib.Core.Path.{subst}
use tgcryptfs.Crypto.Aead.{Bytes}
use tgcryptfs.Fuse.BlockRows.{ℤ}
use tgcryptfs.Fuse.Store.{Session, StoreError}
use tgcryptfs.Sharing.{Invite, try_use, revoke}
use tgcryptfs.Sharing.Invites.{try_use-ok}
use tgcryptfs.Sharing.Database.{Entries, with_key, change, deactivate_invite}
use tgcryptfs.Sharing.Store.{
  Env, first_record, get_invite, insert_invite, use_invite, mark_revoked, revoke_invite, run_change,
  invite_aad,
}
use tgcryptfs.Sharing.Store.Steps.{
  entries_of, stored_invite, get_invite-stored, insert_invite_cases, run_change_cases,
  with_key-deactivated, first_record-deactivated,
}
use tgcryptfs.Common.{
  ℕ, ◌+◌, ◌%◌, ◌≤◌, ◌<◌, ◌≡◌, sym, ap, ◌∙◌, inl, inr, Option, some, arith, u32_mod, Result, ok,
  Result-cases,
}

-- An invite with this id and limit, of which at least so many uses are counted.
pub record Fits (invite_id : Bytes) (limit used : ℕ) (i : Invite) : Type 0 where
  pub same_id : i.invite_id ≡ invite_id
  pub same_limit : i.max_uses ≡ limit
  pub counted : used ≤ i.use_count
  pub bounded : i.use_count ≤ limit

same_ok : {A : Type 0} (r : Result StoreError A) (a b : A) → r ≡ ok a → r ≡ ok b → a ≡ b
same_ok r a b e f = cc

module _ (env : Env) (invite_id : Bytes) (limit : ℕ) where
  -- Such an invite is stored.
  abbrev pub Counts : ℕ → Entries → Type 0
  Counts used t =
      (i : Invite) × (stored_invite env invite_id t ≡ ok (some i)) × Fits invite_id limit used i

  -- A query that is answered finds such an invite.
  found-Counts :
      (used : ℕ) (s : Session env.Conn) (found : Option Invite)
      → Counts used (entries_of env s)
      → get_invite env invite_id s ≡ ok found
      → (i : Invite) × (found ≡ some i) × Fits invite_id limit used i
  found-Counts used s found (i, stored, fits) h = (
    i,
    same_ok (stored_invite env invite_id (entries_of env s)) found (some i)
        (get_invite-stored env invite_id s found h) stored,
    fits,
  )

  -- Putting back an invite with the same id keeps the counts, whether that works or not.
  put_back :
      (used : ℕ) (s : Session env.Conn) (i : Invite)
      → Counts used (entries_of env s)
      → Fits invite_id limit used i
      → Counts used (entries_of env (insert_invite env i s).0)
  put_back used s i c fits = elim (insert_invite_cases env i s) [
    | inr (_, same) ↦ subst (Counts used) (sym same) c
    | inl (_, put) ↦ (
      i,
      ap (λ n. stored_invite env n (entries_of env (insert_invite env i s).0)) (sym fits.same_id)
          ∙ put,
      fits,
    )
  ]

  try_use-Fits :
      (now : ℤ) (used : ℕ) (i next : Invite)
      → 0 < limit
      → limit < u32_mod
      → Fits invite_id limit used i
      → try_use now i ≡ ok next
      → Fits invite_id limit (used + 1) next
  try_use-Fits now used i next limited small fits h =
      let (_, below, next_is) = try_use-ok now i next h in
      let same_limit = fits.same_limit in
      let below_limit : i.use_count < limit = omega (arith, below (omega (arith, same_limit))) in
      let counted = fits.counted in
      let count : next.use_count ≡ (i.use_count + 1) % u32_mod =
        ap (λ (x : Invite). x.use_count) next_is in
      record {
        same_id = ap (λ (x : Invite). x.invite_id) next_is ∙ fits.same_id;
        same_limit = ap (λ (x : Invite). x.max_uses) next_is ∙ same_limit;
        counted = omega (arith, count, counted, below_limit, small);
        bounded = omega (arith, count, below_limit, small);
      }

  -- A use that works counts one more, within the limit.
  pub use_invite-Counts :
      (now : ℤ) (used : ℕ) (s : Session env.Conn) (i : Invite)
      → 0 < limit
      → limit < u32_mod
      → Counts used (entries_of env s)
      → (use_invite env now invite_id s).1 ≡ ok (some i)
      → Counts (used + 1) (entries_of env (use_invite env now invite_id s).0)
  unfolding use_invite
  use_invite-Counts now used s i limited fits_u32 c h =
      elim (Result-cases (get_invite env invite_id s)) [
        | inr (e, g) ↦ absurd (ground arith)
        | inl (found, g) ↦
            let (j, is_found, fits) = found-Counts used s found c g in
            let there : get_invite env invite_id s ≡ ok (some j) = g ∙ ap ok is_found in
            elim (Result-cases (try_use now j)) [
              | inr (e, t) ↦ absurd (ground arith)
              | inl (next, t) ↦ elim (insert_invite_cases env next s) [
                | inr ((e, failed), same) ↦ absurd (ground arith)
                | inl (done, put) ↦
                    let next_fits = try_use-Fits now used j next limited fits_u32 fits t in
                    (
                      next,
                      rw (there, t, use_invite)
                          (ap
                              (λ n.
                                stored_invite env n (entries_of env (insert_invite env next s).0))
                              (sym next_fits.same_id)
                            ∙ put),
                      next_fits,
                    )
              ]
            ]
      ]

  -- A use of any outcome loses no count.
  pub use_invite-keeps :
      (now : ℤ) (used : ℕ) (s : Session env.Conn)
      → 0 < limit
      → limit < u32_mod
      → Counts used (entries_of env s)
      → Counts used (entries_of env (use_invite env now invite_id s).0)
  unfolding use_invite
  use_invite-keeps now used s limited small c = elim (Result-cases (get_invite env invite_id s)) [
    | inr (e, g) ↦ rw (g, use_invite) c
    | inl (found, g) ↦
        let (i, is_found, fits) = found-Counts used s found c g in
        let there : get_invite env invite_id s ≡ ok (some i) = g ∙ ap ok is_found in
        elim (Result-cases (try_use now i)) [
          | inr (e, t) ↦ rw (there, t, use_invite) c
          | inl (next, t) ↦
              rw (there, t, use_invite)
                (put_back used s next c
                  (weaker (try_use-Fits now used i next limited small fits t)))
        ]
  ]
    where
      weaker : {i : Invite} → Fits invite_id limit (used + 1) i → Fits invite_id limit used i
      weaker fits =
          let counted = fits.counted in
          record {
            same_id = fits.same_id;
            same_limit = fits.same_limit;
            counted = omega (arith, counted);
            bounded = fits.bounded;
          }

  -- And so does a revocation.
  pub revoke_invite-keeps :
      (used : ℕ) (s : Session env.Conn)
      → Counts used (entries_of env s)
      → Counts used (entries_of env (revoke_invite env invite_id s).0)
  unfolding revoke_invite mark_revoked change
  revoke_invite-keeps used s c = elim (run_change_cases env (deactivate_invite invite_id) s) [
    | inr ((e, failed), same) ↦ rw (failed, revoke_invite) (subst (Counts used) (sym same) c)
    | inl (done, changed) ↦
        let after = (run_change env (deactivate_invite invite_id) s).0 in
        let c' : Counts used (entries_of env after) =
          subst (Counts used) (sym changed) (inactive c) in
        rw (done, revoke_invite)
          (elim (Result-cases (get_invite env invite_id after)) [
            | inr (e, g) ↦ rw (g, mark_revoked) c'
            | inl (found, g) ↦
                let (i, is_found, fits) = found-Counts used after found c' g in
                rw (g ∙ ap ok is_found, mark_revoked)
                  (put_back used after (revoke i) c' (record {
                    same_id = fits.same_id;
                    same_limit = fits.same_limit;
                    counted = fits.counted;
                    bounded = fits.bounded;
                  }))
          ])
  ]
    where
      inactive :
          Counts used (entries_of env s)
          → Counts used (change (deactivate_invite invite_id) (entries_of env s))
      inactive (i, stored, fits) = (
        i,
        ap (first_record env env.deserialize_invite (invite_aad invite_id))
              (with_key-deactivated invite_id invite_id (entries_of env s).invites)
            ∙ first_record-deactivated env env.deserialize_invite (invite_aad invite_id) invite_id
                (with_key invite_id (entries_of env s).invites)
            ∙ stored,
        fits,
      )
