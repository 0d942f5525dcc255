-- ===== src/Tests/RecordCodec.antt =====
-- Stores of encrypted records in a database that meets the assumptions on SQLite, with a list that says
-- which of its next statements fail.
use mathlib.Core.Path.{subst}
use mathlib.Core.List.{Permᴰ}
use tgcryptfs.Crypto.Aead.{Bytes, nonce_size}
use tgcryptfs.Common.Dict.{Eq, list_eq, nat_eq}
use tgcryptfs.Tests.Toy.{toy}
use tgcryptfs.Tests.ShareCodec.{sign, size_of, number, number-sign, flag, number_flag, toy_answered}
use tgcryptfs.Fuse.BlockRows.{ℤ, pos}
use tgcryptfs.Records.{
  TableRow, RowStatement, RowQuery, rows_of, rows_where, RowAnswers, row_effect, row_answer,
  TableDb,
}
use tgcryptfs.Records.Users.{UserRecord, UserStore}
use tgcryptfs.Records.Switches.{DeadmanRecord, DeadmanStore}
use tgcryptfs.Common.{
  ℕ, zero, suc, ◌≡◌, refl, sym, Bool, true, false, Option, none, some, List, [], ◌∷◌, ◌++◌, arith,
  ◌==◌, length, take, drop, replicate, take-append_exact, drop-append_exact,
}

abbrev pub RowConn : Type 0 → Type 0 → Type 0
RowConn K C = List (TableRow K C Bytes) × List Bool

abbrev pub swap_two : {A : Type 0} → List A → List A
swap_two [] = []
swap_two (x ∷ []) = x ∷ []
swap_two (x ∷ y ∷ l) = y ∷ x ∷ l

swap_two-Permᴰ : {A : Type 0} (l : List A) → Permᴰ l (swap_two l)
swap_two-Permᴰ [] = Permᴰ.nil
swap_two-Permᴰ (x ∷ []) = Permᴰ.cons refl Permᴰ.nil
swap_two-Permᴰ (x ∷ y ∷ l) = Permᴰ.swap refl refl

module _ {K C : Type 0} ⦃e : Eq K⦄ where
  abbrev pub row_execute : RowStatement K C Bytes → RowConn K C → RowConn K C × Bool
  row_execute s (t, []) = ((row_effect s t, []), true)
  row_execute s (t, true ∷ faults) = ((t, faults), false)
  row_execute s (t, false ∷ faults) = ((row_effect s t, faults), true)

  pub row_executes :
      (s : RowStatement K C Bytes) (c : RowConn K C)
      → (row_execute s c).1 ≡ true
      → (row_execute s c).0.0 ≡ row_effect s c.0
  row_executes s (t, []) h = refl
  row_executes s (t, true ∷ faults) h = absurd (ground arith)
  row_executes s (t, false ∷ faults) h = refl

  pub row_refuses :
      (s : RowStatement K C Bytes) (c : RowConn K C)
      → (row_execute s c).1 ≡ false
      → (row_execute s c).0.0 ≡ c.0
  row_refuses s (t, []) h = absurd (ground arith)
  row_refuses s (t, true ∷ faults) h = refl
  row_refuses s (t, false ∷ faults) h = absurd (ground arith)

  -- `rows_where` gives its first two rows the other way round.
  abbrev pub row_query : RowQuery K C → RowConn K C → Option (List (TableRow K C Bytes))
  row_query (rows_of k) c = some (row_answer (rows_of k) c.0)
  row_query (rows_where test) c = some (swap_two (row_answer (rows_where test) c.0))

  pub row_answers :
      (q : RowQuery K C) (c : RowConn K C) (found : List (TableRow K C Bytes))
      → row_query q c ≡ some found
      → RowAnswers q c.0 found
  row_answers (rows_of k) c found h = toy_answered (row_answer (rows_of k) c.0) found h
  row_answers (rows_where test) c found h =
      subst (Permᴰ (row_answer (rows_where test) c.0))
        (sym (toy_answered (swap_two (row_answer (rows_where test) c.0)) found h))
        (swap_two-Permᴰ (row_answer (rows_where test) c.0))

  abbrev pub row_db : TableDb K C
  row_db = record {
    Conn = RowConn K C;
    rows = λ c. c.0;
    execute = row_execute;
    query = row_query;
    executes = row_executes;
    refuses = row_refuses;
    answers = row_answers;
  }

-- A time that may be missing, as three numbers.
abbrev pub known : Option ℤ → ℕ
known none = 0
known (some z) = 1

abbrev pub time_of : Option ℤ → ℤ
time_of none = pos 0
time_of (some z) = z

abbrev pub read_time : ℕ → ℤ → Option ℤ
read_time zero z = none
read_time (suc n) z = some z

pub read_time-known : (t : Option ℤ) → read_time (known t) (time_of t) ≡ t
read_time-known none = refl
read_time-known (some z) = refl

abbrev pub pack_switch : DeadmanRecord → Bytes
pack_switch r =
    flag r.armed
    ∷ known r.last_check
    ∷ sign (time_of r.last_check)
    ∷ size_of (time_of r.last_check)
    ∷ length r.volume_id
    ∷ (r.volume_id ++ r.config_data)

abbrev pub unpack_switch : Bytes → Option DeadmanRecord
unpack_switch (armed ∷ k ∷ a ∷ b ∷ n ∷ rest) = some (record {
  volume_id = take n rest;
  armed = armed == 1;
  config_data = drop n rest;
  last_check = read_time k (number a b);
})
unpack_switch _ = none

pub unpack_switch-pack_switch :
    (r : DeadmanRecord) (bytes : Bytes)
    → some (pack_switch r) ≡ some bytes
    → unpack_switch bytes ≡ some r
unpack_switch-pack_switch r bytes h = rw (toy_answered (pack_switch r) bytes h) (
    rw
      (
        drop-append_exact (length r.volume_id) r.volume_id r.config_data refl,
        take-append_exact (length r.volume_id) r.volume_id r.config_data refl,
        number-sign (time_of r.last_check),
        read_time-known r.last_check,
        number_flag r.armed,
      )
      refl)

abbrev pub switches : DeadmanStore
switches = record {
  db = row_db;
  cipher = toy;
  meta_key = 1 ∷ [];
  nonce = λ n. replicate nonce_size n;
  sized = λ n. refl;
  serialize = λ r. some (pack_switch r);
  deserialize = unpack_switch;
  deserializes = unpack_switch-pack_switch;
}

abbrev pub pack_user : UserRecord → Bytes
pack_user u =
    sign u.telegram_user_id
    ∷ size_of u.telegram_user_id
    ∷ sign u.granted_at
    ∷ size_of u.granted_at
    ∷ known u.last_validated
    ∷ sign (time_of u.last_validated)
    ∷ size_of (time_of u.last_validated)
    ∷ flag u.active
    ∷ length u.user_id
    ∷ length u.display_name
    ∷ length u.access_level
    ∷ length u.mlkem_public_key
    ∷ (u.user_id ++ (u.display_name ++ (u.access_level ++ (u.mlkem_public_key ++ u.wrapped_keys))))

abbrev pub unpack_user : Bytes → Option UserRecord
unpack_user (a ∷ b ∷ c ∷ d ∷ k ∷ x ∷ y ∷ active ∷ n ∷ m ∷ l ∷ p ∷ rest) = some (record {
  user_id = take n rest;
  telegram_user_id = number a b;
  display_name = take m (drop n rest);
  access_level = take l (drop m (drop n rest));
  mlkem_public_key = take p (drop l (drop m (drop n rest)));
  wrapped_keys = drop p (drop l (drop m (drop n rest)));
  granted_at = number c d;
  last_validated = read_time k (number x y);
  active = active == 1;
})
unpack_user _ = none

pub unpack_user-pack_user :
    (u : UserRecord) (bytes : Bytes) → some (pack_user u) ≡ some bytes → unpack_user bytes ≡ some u
unpack_user-pack_user u bytes h =
    let d = u.mlkem_public_key ++ u.wrapped_keys in
    let c = u.access_level ++ d in
    let b = u.display_name ++ c in
    rw (toy_answered (pack_user u) bytes h) (
      rw
        (
          drop-append_exact (length u.user_id) u.user_id b refl,
          take-append_exact (length u.user_id) u.user_id b refl,
          drop-append_exact (length u.display_name) u.display_name c refl,
          take-append_exact (length u.display_name) u.display_name c refl,
          drop-append_exact (length u.access_level) u.access_level d refl,
          take-append_exact (length u.access_level) u.access_level d refl,
          drop-append_exact (length u.mlkem_public_key) u.mlkem_public_key u.wrapped_keys refl,
          take-append_exact (length u.mlkem_public_key) u.mlkem_public_key u.wrapped_keys refl,
          number-sign u.telegram_user_id,
          number-sign u.granted_at,
          number-sign (time_of u.last_validated),
          read_time-known u.last_validated,
          number_flag u.active,
        )
        refl)

abbrev pub users : UserStore
users = record {
  db = row_db;
  cipher = toy;
  meta_key = 1 ∷ [];
  nonce = λ n. replicate nonce_size n;
  sized = λ n. refl;
  serialize = λ u. some (pack_user u);
  deserialize = unpack_user;
  deserializes = unpack_user-pack_user;
}
