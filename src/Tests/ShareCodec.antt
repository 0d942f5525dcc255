-- ===== src/Tests/ShareCodec.antt =====
-- Shares and invites in a database that meets the assumptions on SQLite, with a list that says which
-- of its next changes fail, and a wrapped key.
use tgcryptfs.Crypto.Aead.{Bytes, nonce_size}
use tgcryptfs.Common.Dict.{list_eq, nat_eq}
use tgcryptfs.Tests.Toy.{toy}
use tgcryptfs.Fuse.BlockRows.{ℤ, pos, negsuc}
use tgcryptfs.Sharing.{AccessLevel, read_only, read_write, admin, ShareRecord, Invite}
use tgcryptfs.Sharing.Database.{Entries, Change, change, find_entries, ShareDb}
use tgcryptfs.Sharing.Store.{Env}
use tgcryptfs.Common.{
  ℕ, zero, suc, ◌≡◌, refl, sym, ap, inl, inr, Bool, true, false, Option, none, some, List, [], ◌∷◌,
  ◌++◌, arith, ◌==◌, if◌then◌else◌, Option-cases, length, take, drop, replicate, take-append_exact,
  drop-append_exact,
}

abbrev pub ToyConn : Type 0
ToyConn = Entries × List Bool

abbrev pub toy_execute : Change → ToyConn → ToyConn × Bool
toy_execute s (t, []) = ((change s t, []), true)
toy_execute s (t, true ∷ faults) = ((t, faults), false)
toy_execute s (t, false ∷ faults) = ((change s t, faults), true)

pub toy_executes :
    (s : Change) (c : ToyConn) → (toy_execute s c).1 ≡ true → (toy_execute s c).0.0 ≡ change s c.0
toy_executes s (t, []) h = refl
toy_executes s (t, true ∷ faults) h = absurd (ground arith)
toy_executes s (t, false ∷ faults) h = refl

pub toy_refuses :
    (s : Change) (c : ToyConn) → (toy_execute s c).1 ≡ false → (toy_execute s c).0.0 ≡ c.0
toy_refuses s (t, []) h = absurd (ground arith)
toy_refuses s (t, true ∷ faults) h = refl
toy_refuses s (t, false ∷ faults) h = absurd (ground arith)

pub toy_answered : {A : Type 0} (a b : A) → some a ≡ some b → b ≡ a
toy_answered a b h = cc

abbrev pub toy_db : ShareDb
toy_db = record {
  Conn = ToyConn;
  entries = λ c. c.0;
  execute = toy_execute;
  query = λ q c. some (find_entries q c.0);
  executes = toy_executes;
  refuses = toy_refuses;
  answers = λ q c rows h. toy_answered (find_entries q c.0) rows h;
}

abbrev pub sign : ℤ → ℕ
sign (pos n) = 0
sign (negsuc n) = 1

abbrev pub size_of : ℤ → ℕ
size_of (pos n) = n
size_of (negsuc n) = n

abbrev pub number : ℕ → ℕ → ℤ
number zero n = pos n
number (suc _) n = negsuc n

pub number-sign : (z : ℤ) → number (sign z) (size_of z) ≡ z
number-sign (pos n) = refl
number-sign (negsuc n) = refl

abbrev pub level_number : AccessLevel → ℕ
level_number read_only = 0
level_number read_write = 1
level_number admin = 2

abbrev pub number_level : ℕ → AccessLevel
number_level n = if n == 0 then read_only else if n == 1 then read_write else admin

number_level-level_number : (l : AccessLevel) → number_level (level_number l) ≡ l
number_level-level_number read_only = refl
number_level-level_number read_write = refl
number_level-level_number admin = refl

abbrev pub flag : Bool → ℕ
flag true = 1
flag false = 0

pub number_flag : (b : Bool) → (flag b == 1) ≡ b
number_flag true = refl
number_flag false = refl

abbrev pub pack_share : ShareRecord → Bytes
pack_share s =
    sign s.telegram_user_id
    ∷ size_of s.telegram_user_id
    ∷ level_number s.access_level
    ∷ sign s.granted_at
    ∷ size_of s.granted_at
    ∷ flag s.active
    ∷ length s.user_id
    ∷ length s.display_name
    ∷ (s.user_id ++ (s.display_name ++ s.wrapped_key))

abbrev pub unpack_share : Bytes → Option ShareRecord
unpack_share (a ∷ b ∷ level ∷ c ∷ d ∷ active ∷ n ∷ m ∷ rest) = some (record {
  user_id = take n rest;
  telegram_user_id = number a b;
  display_name = take m (drop n rest);
  access_level = number_level level;
  wrapped_key = drop m (drop n rest);
  granted_at = number c d;
  active = active == 1;
})
unpack_share _ = none

pub unpack_share-pack_share :
    (s : ShareRecord) (bytes : Bytes)
    → some (pack_share s) ≡ some bytes
    → unpack_share bytes ≡ some s
unpack_share-pack_share s bytes h = rw (toy_answered (pack_share s) bytes h) (
    rw
      (
        drop-append_exact (length s.user_id) s.user_id (s.display_name ++ s.wrapped_key) refl,
        take-append_exact (length s.user_id) s.user_id (s.display_name ++ s.wrapped_key) refl,
        drop-append_exact (length s.display_name) s.display_name s.wrapped_key refl,
        take-append_exact (length s.display_name) s.display_name s.wrapped_key refl,
        number-sign s.telegram_user_id,
        number-sign s.granted_at,
        number_level-level_number s.access_level,
        number_flag s.active,
      )
      refl)

abbrev pub pack_invite : Invite → Bytes
pack_invite i =
    level_number i.access_level
    ∷ sign i.created_at
    ∷ size_of i.created_at
    ∷ sign i.expires_at
    ∷ size_of i.expires_at
    ∷ i.max_uses
    ∷ i.use_count
    ∷ flag i.revoked
    ∷ length i.invite_id
    ∷ length i.volume_id
    ∷ (i.invite_id ++ (i.volume_id ++ i.created_by))

abbrev pub unpack_invite : Bytes → Option Invite
unpack_invite (level ∷ a ∷ b ∷ c ∷ d ∷ max_uses ∷ use_count ∷ revoked ∷ n ∷ m ∷ rest) =
    some (record {
      invite_id = take n rest;
      volume_id = take m (drop n rest);
      created_by = drop m (drop n rest);
      access_level = number_level level;
      created_at = number a b;
      expires_at = number c d;
      max_uses = max_uses;
      use_count = use_count;
      revoked = revoked == 1;
      wrapped_key = none;
    })
unpack_invite _ = none

-- Invites without a wrapped key.
abbrev pub serialize_invite : Invite → Option Bytes
serialize_invite i = elim i.wrapped_key [ some _ ↦ none | none ↦ some (pack_invite i) ]

pub unpack_invite-pack_invite :
    (i : Invite) (bytes : Bytes) → serialize_invite i ≡ some bytes → unpack_invite bytes ≡ some i
unpack_invite-pack_invite i bytes h = elim (Option-cases i.wrapped_key) [
  | inr (_, e) ↦ absurd (ground arith)
  | inl e ↦
      let packed : pack_invite i ≡ bytes = ground arith in
      rw (sym packed) (
        rw
          (
            drop-append_exact (length i.invite_id) i.invite_id (i.volume_id ++ i.created_by) refl,
            take-append_exact (length i.invite_id) i.invite_id (i.volume_id ++ i.created_by) refl,
            drop-append_exact (length i.volume_id) i.volume_id i.created_by refl,
            take-append_exact (length i.volume_id) i.volume_id i.created_by refl,
            number-sign i.created_at,
            number-sign i.expires_at,
            number_level-level_number i.access_level,
            number_flag i.revoked,
          )
          (ap (λ x. some (record i { wrapped_key = x })) (sym e)))
]

abbrev pub env : Env
env = record {
  db = toy_db;
  cipher = toy;
  meta_key = 1 ∷ [];
  nonce = λ n. replicate nonce_size n;
  sized = λ n. refl;
  serialize_share = λ s. some (pack_share s);
  deserialize_share = unpack_share;
  deserializes_share = unpack_share-pack_share;
  serialize_invite = serialize_invite;
  deserialize_invite = unpack_invite;
  deserializes_invite = unpack_invite-pack_invite;
}
