-- ===== src/Sharing/Service/Accepted.antt =====
-- How often an invite can be accepted.
use mathlib.Core.Path.{subst}
use tgcryptfs.Crypto.Aead.{Bytes}
use tgcryptfs.Fuse.BlockRows.{ℤ}
use tgcryptfs.Fuse.Store.{Session, StoreError}
use tgcryptfs.Sharing.{Invite, ShareRecord}
use tgcryptfs.Sharing.Database.{Entries, change, put_share}
use tgcryptfs.Sharing.Store.{Env, insert_share, revoke_invite, use_invite, share_row, share_aad}
use tgcryptfs.Sharing.Store.Steps.{entries_of, stored_invite, put_sealed_cases}
use tgcryptfs.Sharing.Store.Uses.{Counts, use_invite-Counts, use_invite-keeps, revoke_invite-keeps}
use tgcryptfs.Sharing.Service.{
  VolumeSession, keyless_share, grant_share, accept_used, accept_invite,
}
use tgcryptfs.Common.{
  ℕ, ◌+◌, ◌-◌, ◌≤◌, ◌<◌, ◌≡◌, refl, sym, inl, inr, Bool, true, false, Option, none, some, List, [],
  ◌∷◌, arith, if◌then◌else◌, Bool-cases, u32_mod, Result, ok, err, is_ok,
}

-- An attempt to accept the invite, with both readings of the clock and the user; or its revocation.
pub data Request : Type 0 where
  accepting : ℤ → Option ℤ → Bytes → Request
  revoking : Request

module _ (env : Env) (invite_id : Bytes) where
  abbrev pub answer_request : Request → VolumeSession env.Conn → VolumeSession env.Conn × Bool
  answer_request (accepting now clock user_id) v =
      let out = accept_invite env now clock invite_id user_id v in (out.0, is_ok out.1)
  answer_request revoking v = (record v { store = (revoke_invite env invite_id v.store).0 }, false)

  -- How many of the requests, one after the other, grant a share.
  abbrev pub accepted : List Request → VolumeSession env.Conn → ℕ
  accepted [] v = 0
  accepted (r ∷ requests) v =
      let out = answer_request r v in (if out.1 then 1 else 0) + accepted requests out.0

module _ (env : Env) (invite_id : Bytes) (limit : ℕ) where
  weaker :
      (a b : ℕ) (t : Entries)
      → a ≤ b
      → Counts env invite_id limit b t
      → Counts env invite_id limit a t
  weaker a b t le (i, stored, fits) =
      let counted = fits.counted in
      (
        i,
        stored,
        record {
          same_id = fits.same_id;
          same_limit = fits.same_limit;
          counted = omega (arith, le, counted);
          bounded = fits.bounded;
        },
      )

  -- A share that is stored, or not, changes no invite.
  after_share :
      (used : ℕ) (volume_id : Bytes) (share : ShareRecord) (s : Session env.Conn)
      → Counts env invite_id limit used (entries_of env s)
      → Counts env invite_id limit used (entries_of env (grant_share env volume_id share s).0)
  unfolding grant_share insert_share change
  after_share used volume_id share s c =
      elim (put_sealed_cases env env.deserialize_share (share_aad share.user_id)
        (env.serialize_share share) share
        (λ contents. put_share (share_row volume_id share contents)) s
        (env.deserializes_share share)) [
          | inr (_, same) ↦ subst (Counts env invite_id limit used) (sym same) c
          | inl (contents, _, _, changed) ↦ subst (Counts env invite_id limit used) (sym changed) c
        ]

  -- Nor does what follows a use.
  after_use :
      (used : ℕ) (clock : Option ℤ) (user_id volume_id : Bytes) (s : Session env.Conn)
      (r : Result StoreError (Option Invite))
      → Counts env invite_id limit used (entries_of env s)
      → Counts env invite_id limit used
          (entries_of env (accept_used env clock user_id volume_id (s, r)).0)
  unfolding accept_used
  after_use used clock user_id volume_id s (err e) c = c
  after_use used clock user_id volume_id s (ok none) c = c
  after_use used none user_id volume_id s (ok (some i)) c = c
  after_use used (some now) user_id volume_id s (ok (some i)) c =
      after_share used volume_id (keyless_share user_id i.access_level now) s c

  -- A share is granted only after a use that works.
  granted_used :
      (clock : Option ℤ) (user_id volume_id : Bytes) (s : Session env.Conn)
      (r : Result StoreError (Option Invite))
      → is_ok (accept_used env clock user_id volume_id (s, r)).1 ≡ true
      → (i : Invite) × (r ≡ ok (some i))
  unfolding accept_used
  granted_used clock user_id volume_id s (err e) h = absurd (ground arith)
  granted_used clock user_id volume_id s (ok none) h = absurd (ground arith)
  granted_used clock user_id volume_id s (ok (some i)) h = (i, refl)

  accept_step :
      (now : ℤ) (clock : Option ℤ) (user_id : Bytes) (used : ℕ) (v : VolumeSession env.Conn)
      → 0 < limit
      → limit < u32_mod
      → Counts env invite_id limit used (entries_of env v.store)
      → let out = accept_invite env now clock invite_id user_id v in
        Counts env invite_id limit
          ((if is_ok out.1 then 1 else 0) + used)
          (entries_of env out.0.store)
  unfolding accept_invite
  accept_step now clock user_id used v limited small c = elim (Bool-cases v.is_poisoned) [
    | inl e ↦
        rw (e, accept_invite) (weaker (0 + used) used (entries_of env v.store) (omega arith) c)
    | inr e ↦
        let (s, r) = use_invite env now invite_id v.store in
        let done = accept_used env clock user_id v.volume_id (s, r) in
        rw (e, accept_invite)
          (elim (Bool-cases (is_ok done.1)) [
            | inr f ↦ rw f (
                weaker (0 + used) used (entries_of env done.0) (omega arith) (
                  after_use used clock user_id v.volume_id s r
                    (use_invite-keeps env invite_id limit now used v.store limited small c)))
            | inl f ↦
                let (i, worked) = granted_used clock user_id v.volume_id s r f in
                rw f (
                  weaker (1 + used) (used + 1) (entries_of env done.0) (omega arith) (
                    after_use (used + 1) clock user_id v.volume_id s r (
                      use_invite-Counts env invite_id limit now used v.store i limited small c
                        worked)))
          ])
  ]

  request_step :
      (r : Request) (used : ℕ) (v : VolumeSession env.Conn)
      → 0 < limit
      → limit < u32_mod
      → Counts env invite_id limit used (entries_of env v.store)
      → let out = answer_request env invite_id r v in
        Counts env invite_id limit ((if out.1 then 1 else 0) + used) (entries_of env out.0.store)
  request_step (accepting now clock user_id) used v limited small c =
      accept_step now clock user_id used v limited small c
  request_step revoking used v limited small c =
      let after = (revoke_invite env invite_id v.store).0 in
      weaker (0 + used) used (entries_of env after) (omega arith)
        (revoke_invite-keeps env invite_id limit used v.store c)

  accepted-Counts :
      (requests : List Request) (used : ℕ) (v : VolumeSession env.Conn)
      → 0 < limit
      → limit < u32_mod
      → Counts env invite_id limit used (entries_of env v.store)
      → accepted env invite_id requests v + used ≤ limit
  accepted-Counts [] used v limited small (i, stored, fits) =
      let counted = fits.counted in let bounded = fits.bounded in omega (arith, counted, bounded)
  accepted-Counts (r ∷ requests) used v limited small c =
      let out = answer_request env invite_id r v in
      let later =
        accepted-Counts requests ((if out.1 then 1 else 0) + used) out.0 limited small
          (request_step r used v limited small c) in
      omega (arith, later)

module _ (env : Env) where
  -- Where an invite with a u32 limit that is not 0 is stored under its id, of which at most that
  -- many uses are counted, the attempts to accept it, in any order, with revocations between them
  -- and whatever SQLite refuses, grant at most as many shares as uses were left.
  pub accepted-at_most :
      (i : Invite) (requests : List Request) (v : VolumeSession env.Conn)
      → 0 < i.max_uses
      → i.max_uses < u32_mod
      → i.use_count ≤ i.max_uses
      → stored_invite env i.invite_id (entries_of env v.store) ≡ ok (some i)
      → accepted env i.invite_id requests v ≤ i.max_uses - i.use_count
  accepted-at_most i requests v limited small bounded stored = omega (
    arith,
    accepted-Counts env i.invite_id i.max_uses requests i.use_count v limited small (
      i,
      stored,
      record { same_id = refl; same_limit = refl; counted = omega arith; bounded = bounded },
    ),
  )
