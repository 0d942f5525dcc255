-- ===== src/Sharing/Store.antt =====
-- crates/tgcryptfs-store/src/sharing_store.rs: shares and invites as encrypted rows. The table's
-- names are left out, postcard is a parameter, and `drawn` counts the nonces.
pub mod Steps
pub mod Uses
pub mod Revoked
use tgcryptfs.Crypto.Aead.{Bytes, Cipher, nonce_size, encrypt, decrypt}
use tgcryptfs.Fuse.Store.{Session, StoreError, sql, to_sql, from_sql}
use tgcryptfs.Fuse.BlockRows.{ℤ}
use tgcryptfs.Sharing.{ShareRecord, Invite, try_use, revoke}
use tgcryptfs.Sharing.Database.{
  Entry, Change, put_share, put_invite, deactivate_share, deactivate_invite, Lookup, share_by_id,
  invite_by_id, active_shares, ShareDb,
}
use tgcryptfs.Common.{
  ℕ, ◌+◌, ◌≡◌, not, Option, none, some, List, [], ◌∷◌, if◌then◌else◌, Result, ok, err, ◌>>=◌, ◌>>◌,
  length,
}

pub record Env : Type 1 where
  pub db : ShareDb
  pub open db use {Conn, entries, execute, query}
  pub cipher : Cipher
  pub meta_key : Bytes
  pub nonce : ℕ → Bytes
  pub sized : (n : ℕ) → length (nonce n) ≡ nonce_size
  pub serialize_share : ShareRecord → Option Bytes
  pub deserialize_share : Bytes → Option ShareRecord
  pub deserializes_share :
      (s : ShareRecord) (bytes : Bytes)
      → serialize_share s ≡ some bytes
      → deserialize_share bytes ≡ some s
  pub serialize_invite : Invite → Option Bytes
  pub deserialize_invite : Bytes → Option Invite
  pub deserializes_invite :
      (i : Invite) (bytes : Bytes)
      → serialize_invite i ≡ some bytes
      → deserialize_invite bytes ≡ some i

-- format!("share:{user_id}")
abbrev pub share_aad : Bytes → Bytes
share_aad user_id = b's' ∷ b'h' ∷ b'a' ∷ b'r' ∷ b'e' ∷ b':' ∷ user_id

-- format!("invite:{invite_id}")
abbrev pub invite_aad : Bytes → Bytes
invite_aad invite_id = b'i' ∷ b'n' ∷ b'v' ∷ b'i' ∷ b't' ∷ b'e' ∷ b':' ∷ invite_id

abbrev pub share_row : Bytes → ShareRecord → Bytes → Entry
share_row volume_id share contents = record {
  key = share.user_id;
  volume_id = volume_id;
  contents = contents;
  active = share.active;
}

abbrev pub invite_row : Invite → Bytes → Entry
invite_row i contents = record {
  key = i.invite_id;
  volume_id = i.volume_id;
  contents = contents;
  active = not i.revoked;
}

module _ (env : Env) where
  unfoldable pub seal_record : Bytes → ℕ → Option Bytes → Result StoreError Bytes
  seal_record aad n none = err to_sql
  seal_record aad n (some bytes) = elim (encrypt env.cipher (env.nonce n) env.meta_key bytes aad) [
    | ok contents ↦ ok contents
    | err _ ↦ err to_sql
  ]

  unfoldable pub open_record :
      {A : Type 0} → (Bytes → Option A) → Bytes → Bytes → Result StoreError A
  open_record deserialize aad contents = elim (decrypt env.cipher env.meta_key contents aad) [
    | err _ ↦ err from_sql
    | ok bytes ↦ elim (deserialize bytes) [ none ↦ err from_sql | some a ↦ ok a ]
  ]

  -- The first row, with the id that was asked for in the associated data.
  unfoldable pub first_record :
      {A : Type 0} → (Bytes → Option A) → Bytes → List Entry → Result StoreError (Option A)
  first_record deserialize aad [] = ok none
  first_record deserialize aad (r ∷ _) = do a ← open_record deserialize aad r.contents; ok (some a)

  -- The loop of `list_shares`.
  unfoldable pub all_shares : List Entry → Result StoreError (List ShareRecord)
  all_shares [] = ok []
  all_shares (r ∷ rows) = do
    share ← open_record env.deserialize_share (share_aad r.key) r.contents
    shares ← all_shares rows
    ok (share ∷ shares)

  abbrev pub drawn_once : Session env.Conn → Session env.Conn
  drawn_once s = record s { drawn = s.drawn + 1 }

  abbrev pub Changed : Type 0
  Changed = Session env.Conn × Result StoreError (Unit {0})

  unfoldable pub run_change : Change → Session env.Conn → Changed
  run_change c s =
      let after = env.execute c s.conn in
      (record s { conn = after.0 }, if after.1 then ok tt else err sql)

  -- A record is sealed and put.
  unfoldable pub put_sealed : Bytes → Option Bytes → (Bytes → Change) → Session env.Conn → Changed
  put_sealed aad serialized put s = elim (seal_record aad s.drawn serialized) [
    | err e ↦ (drawn_once s, err e)
    | ok contents ↦ run_change (put contents) (drawn_once s)
  ]

  abbrev pub asked : Lookup → Session env.Conn → Result StoreError (List Entry)
  asked q s = elim (env.query q s.conn) [ none ↦ err sql | some rows ↦ ok rows ]

  unfoldable pub insert_share : Bytes → ShareRecord → Session env.Conn → Changed
  insert_share volume_id share s =
      put_sealed (share_aad share.user_id) (env.serialize_share share)
        (λ contents. put_share (share_row volume_id share contents)) s

  unfoldable pub get_share : Bytes → Session env.Conn → Result StoreError (Option ShareRecord)
  get_share user_id s = do
    rows ← asked (share_by_id user_id) s
    first_record env.deserialize_share (share_aad user_id) rows

  unfoldable pub list_shares : Bytes → Session env.Conn → Result StoreError (List ShareRecord)
  list_shares volume_id s = do rows ← asked (active_shares volume_id) s; all_shares rows

  unfoldable pub revoke_share : Bytes → Session env.Conn → Changed
  revoke_share user_id s = run_change (deactivate_share user_id) s

  unfoldable pub insert_invite : Invite → Session env.Conn → Changed
  insert_invite i s =
      put_sealed (invite_aad i.invite_id) (env.serialize_invite i)
        (λ contents. put_invite (invite_row i contents)) s

  unfoldable pub get_invite : Bytes → Session env.Conn → Result StoreError (Option Invite)
  get_invite invite_id s = do
    rows ← asked (invite_by_id invite_id) s
    first_record env.deserialize_invite (invite_aad invite_id) rows

  unfoldable pub use_invite :
      ℤ → Bytes → Session env.Conn → Session env.Conn × Result StoreError (Option Invite)
  use_invite now invite_id s = elim (get_invite invite_id s) [
    | err e ↦ (s, err e)
    | ok none ↦ (s, ok none)
    | ok (some i) ↦ elim (try_use now i) [
      | err _ ↦ (s, ok none)
      | ok used ↦ let stored = insert_invite used s in (stored.0, stored.1 >>= λ _. ok (some used))
    ]
  ]

  -- What `get_invite` or `insert_invite` answers is dropped.
  unfoldable pub mark_revoked : Bytes → Session env.Conn → Session env.Conn
  mark_revoked invite_id s = elim (get_invite invite_id s) [
    | err _ ↦ s
    | ok none ↦ s
    | ok (some i) ↦ (insert_invite (revoke i) s).0
  ]

  unfoldable pub revoke_invite : Bytes → Session env.Conn → Changed
  revoke_invite invite_id s =
      let updated = run_change (deactivate_invite invite_id) s in
      elim updated.1 [
        | err e ↦ (updated.0, err e)
        | ok _ ↦ (mark_revoked invite_id updated.0, ok tt)
      ]
