-- ===== src/Sharing/Database.antt =====
-- The tables of shares and invites that crates/tgcryptfs-store/src/migrations.rs makes, and the
-- statements that sharing_store.rs runs on them. The rows of both tables have the same columns but
-- for the user id of a share, which is its primary key a second time. SQLite is a parameter.
use tgcryptfs.Crypto.Aead.{Bytes}
use tgcryptfs.Common.Dict.{list_beq, nat_eq}
use tgcryptfs.Common.{
  ◌≡◌, Bool, true, false, not, ◌&&◌, Option, some, List, [], ◌∷◌, ◌++◌, map, if◌then◌else◌, filterb,
}

pub record Entry : Type 0 where
  pub key : Bytes
  pub volume_id : Bytes
  pub contents : Bytes
  pub active : Bool

pub record Entries : Type 0 where
  pub shares : List Entry
  pub invites : List Entry

pub data Change : Type 0 where
  put_share put_invite : Entry → Change
  deactivate_share deactivate_invite : Bytes → Change

pub data Lookup : Type 0 where
  share_by_id invite_by_id : Bytes → Lookup
  active_shares : Bytes → Lookup

-- INSERT OR REPLACE
abbrev pub put_entry : Entry → List Entry → List Entry
put_entry r rows = filterb (λ (x : Entry). not (list_beq x.key r.key)) rows ++ r ∷ []

-- SET active = 0
abbrev pub deactivated : Bytes → Entry → Entry
deactivated key r = if list_beq r.key key then record r { active = false } else r

unfoldable pub change : Change → Entries → Entries
change (put_share r) t = record t { shares = put_entry r t.shares }
change (put_invite r) t = record t { invites = put_entry r t.invites }
change (deactivate_share key) t = record t { shares = map (deactivated key) t.shares }
change (deactivate_invite key) t = record t { invites = map (deactivated key) t.invites }

abbrev pub with_key : Bytes → List Entry → List Entry
with_key key rows = filterb (λ (x : Entry). list_beq x.key key) rows

unfoldable pub find_entries : Lookup → Entries → List Entry
find_entries (share_by_id key) t = with_key key t.shares
find_entries (invite_by_id key) t = with_key key t.invites
find_entries (active_shares volume_id) t =
    filterb (λ (x : Entry). list_beq x.volume_id volume_id && x.active) t.shares

pub record ShareDb : Type 1 where
  pub Conn : Type 0
  pub entries : Conn → Entries
  pub execute : Change → Conn → Conn × Bool
  pub query : Lookup → Conn → Option (List Entry)
  pub executes :
      (s : Change) (c : Conn)
      → (execute s c).1 ≡ true
      → entries (execute s c).0 ≡ change s (entries c)
  pub refuses :
      (s : Change) (c : Conn) → (execute s c).1 ≡ false → entries (execute s c).0 ≡ entries c
  pub answers :
      (q : Lookup) (c : Conn) (rows : List Entry)
      → query q c ≡ some rows
      → rows ≡ find_entries q (entries c)
