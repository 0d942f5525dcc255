-- ===== src/Records/Kept.antt =====
-- What the stores of users, of switches and of volume configurations answer after a call that changes
-- columns, or that saves a record anew.
use mathlib.Core.Path.{subst}
use mathlib.Core.List.{Permᴰ}
use tgcryptfs.Crypto.Aead.{Bytes}
use tgcryptfs.Common.Dict.{list_eq, nat_eq, list_beq}
use tgcryptfs.Fuse.Store.{Session}
use tgcryptfs.Fuse.BlockRows.{ℤ}
use tgcryptfs.Volume.Config.{VolumeConfig}
use tgcryptfs.Records.{
  TableRow, with_columns, set_columns, row_effect, rows_of, rows_where, row_answer, Changed,
  first_record,
}
use tgcryptfs.Records.Opening.{Opens, first_contents, contents_of, set_columns-Opens}
use tgcryptfs.Records.Refinement.{run_statement_cases, fetch-Opens, fetch_where-Opens, save_cases}
use tgcryptfs.Records.Columns.{
  ColumnsPass, first_contents-with_columns, ColumnsPass-with_columns, filterb-with_columns,
  row_answer-put_row, stored, fetch-stored, set_columns-stored,
}
use tgcryptfs.Records.Users.{UserRecord, UserStore, user_aad, get_user, list_active, deactivate}
use tgcryptfs.Records.Volumes.{VolumeTimes, VolumeStore, volume_aad, save_config, load_config}
use tgcryptfs.Records.Switches.{
  SwitchColumns, DeadmanStore, deadman_aad, get_switch, set_armed, update_last_check,
}
use tgcryptfs.Common.{
  ℕ, ◌≡◌, refl, sym, ap, ◌∙◌, inl, inr, Bool, true, false, not, some, List, [], ◌∷◌, map, arith, ok,
  filterb,
}

-- The users whose column says that they are active.
abbrev pub active_users :
    List (TableRow Bytes Bool UserRecord) → List (TableRow Bytes Bool UserRecord)
active_users users = filterb (λ (r : TableRow Bytes Bool UserRecord). r.columns) users

module _ (store : UserStore) where
  -- When the rows open to the records `users`, `deactivate` of a user is answered Ok and SQLite answers
  -- the queries after it, then `list_active` gives the active records of the other users, in some
  -- order, and `get_user` still gives the user's record as it was, its flag `active` included.
  deactivate-get_user :
      (user_id : Bytes) (s : Session store.Conn) (users : List (TableRow Bytes Bool UserRecord))
      (found listed : List (TableRow Bytes Bool Bytes))
      → Opens store user_aad (store.rows s.conn) users
      → (deactivate store user_id s).1 ≡ ok tt
      → store.query (rows_of user_id) (deactivate store user_id s).0.conn ≡ some found
      → store.query (rows_where (λ active. active)) (deactivate store user_id s).0.conn
        ≡ some listed
      → ((names : List UserRecord) × Permᴰ
            (contents_of (
              active_users (
                filterb
                  (λ (r : TableRow Bytes Bool UserRecord). not (list_beq r.key user_id))
                  users)))
            names
          × (list_active store (deactivate store user_id s).0 ≡ ok names))
        × (get_user store user_id (deactivate store user_id s).0
            ≡ ok (first_contents (row_answer (rows_of user_id) users)))
  unfolding row_effect row_answer
  deactivate-get_user user_id s users found listed h worked one many =
      elim (run_statement_cases store user_aad (set_columns user_id (λ _. false)) s) [
        | inr ((failure, failed), same) ↦ absurd (ground arith)
        | inl (done, changed) ↦
            let after = (deactivate store user_id s).0 in
            let users_after = map (with_columns user_id (λ _. false)) users in
            let opens : Opens store user_aad (store.rows after.conn) users_after =
              subst (λ rows. Opens store user_aad rows users_after) (sym changed)
                (set_columns-Opens store user_aad user_id (λ _. false) (store.rows s.conn) users
                  h) in
            let (names, order, lists) =
              fetch_where-Opens store user_aad (λ active. active) after users_after listed opens
                many in
            let others =
              filterb-with_columns user_id (λ _. false) (λ active. active) users (λ _. refl) in
            (
              (names, subst (λ rows. Permᴰ (contents_of rows) names) others order, lists),
              fetch-Opens store user_aad user_id after users_after found opens one
                  ∙ ap (λ o. ok o) (first_contents-with_columns user_id user_id (λ _. false) users),
            )
      ]

abbrev pub bool_eq : Bool → Bool → Bool
bool_eq true b = b
bool_eq false b = not b

bool_eq_refl : (b : Bool) → bool_eq b b ≡ true
bool_eq_refl true = refl
bool_eq_refl false = refl

-- A call that changes columns of one volume's switch.
pub data Touch : Type 0 where
  arms : Bool → Touch
  checks : ℤ → Touch

module _ (store : DeadmanStore) where
  unfoldable pub touch : Bytes → Touch → Session store.Conn → Changed store deadman_aad
  touch volume_id (arms armed_now) s = set_armed store volume_id armed_now s
  touch volume_id (checks timestamp) s = update_last_check store volume_id timestamp s

  unfoldable pub touches : Bytes → List Touch → Session store.Conn → Session store.Conn
  touches volume_id [] s = s
  touches volume_id (t ∷ ts) s = touches volume_id ts (touch volume_id t s).0

  touches-stored :
      (volume_id : Bytes) (ts : List Touch) (s : Session store.Conn)
      → stored store deadman_aad volume_id (touches volume_id ts s)
        ≡ stored store deadman_aad volume_id s
  unfolding touches touch
  touches-stored volume_id [] s = refl
  touches-stored volume_id (arms b ∷ ts) s =
      touches-stored volume_id ts (set_armed store volume_id b s).0
      ∙ set_columns-stored store deadman_aad volume_id volume_id (λ c. record c { armed_flag = b })
          s
  touches-stored volume_id (checks z ∷ ts) s =
      touches-stored volume_id ts (update_last_check store volume_id z s).0
      ∙ set_columns-stored store deadman_aad volume_id volume_id
          (λ c. record c { checked_at = some z }) s

  -- Run any calls of `set_armed` and `update_last_check` for a volume, each of which may fail, and then
  -- a `set_armed` that is answered Ok. Every row of the volume then has the flag that this call was
  -- given, but `get_switch` gives what it gave before all these calls, with the old flag in the record
  -- (SQLite answers both queries).
  pub set_armed-get_switch :
      (volume_id : Bytes) (ts : List Touch) (armed_now : Bool) (s : Session store.Conn)
      (before after : List (TableRow Bytes SwitchColumns Bytes))
      → (set_armed store volume_id armed_now (touches volume_id ts s)).1 ≡ ok tt
      → store.query (rows_of volume_id) s.conn ≡ some before
      → store.query
          (rows_of volume_id)
          (set_armed store volume_id armed_now (touches volume_id ts s)).0.conn
        ≡ some after
      → ColumnsPass volume_id
          (λ c. bool_eq c.armed_flag armed_now)
          (store.rows (set_armed store volume_id armed_now (touches volume_id ts s)).0.conn)
        × (get_switch store volume_id
              (set_armed store volume_id armed_now (touches volume_id ts s)).0
            ≡ get_switch store volume_id s)
  unfolding row_effect
  set_armed-get_switch volume_id ts armed_now s before after worked one two =
      let mid = touches volume_id ts s in
      let set = λ (c : SwitchColumns). record c { armed_flag = armed_now } in
      elim (run_statement_cases store deadman_aad (set_columns volume_id set) mid) [
        | inr ((failure, failed), same) ↦ absurd (ground arith)
        | inl (done, changed) ↦ (
          subst (ColumnsPass volume_id (λ c. bool_eq c.armed_flag armed_now)) (sym changed) (
              ColumnsPass-with_columns volume_id set (λ c. bool_eq c.armed_flag armed_now)
                (store.rows mid.conn) (λ c. bool_eq_refl armed_now)),
          fetch-stored store deadman_aad volume_id (set_armed store volume_id armed_now mid).0 after
                two
              ∙ set_columns-stored store deadman_aad volume_id volume_id set mid
              ∙ touches-stored volume_id ts s
              ∙ sym (fetch-stored store deadman_aad volume_id s before one),
        )
      ]

module _ (store : VolumeStore) where
  -- When `save_config` is answered Ok, the volume has one row, whose column `created_at` is the time of
  -- this call whatever it was before, and `load_config`, if SQLite answers it, gives the configuration
  -- that was saved.
  load_config-save_config :
      (now : ℕ) (config : VolumeConfig) (s : Session store.Conn)
      (found : List (TableRow Bytes VolumeTimes Bytes))
      → (save_config store now config s).1 ≡ ok tt
      → store.query (rows_of config.volume_id) (save_config store now config s).0.conn ≡ some found
      → (load_config store config.volume_id (save_config store now config s).0 ≡ ok (some config))
        × ((contents : Bytes) × (found
              ≡ record {
                key = config.volume_id;
                contents = contents;
                columns = record { created_at = now; updated_at = now };
              }
                ∷ []))
  unfolding first_record
  load_config-save_config now config s found worked one =
      let times : VolumeTimes = record { created_at = now; updated_at = now } in
      let key = config.volume_id in
      elim (save_cases store volume_aad key times config s) [
        | inr ((failure, failed), same) ↦ absurd (ground arith)
        | inl (contents, opened, done, changed) ↦
            let after = (save_config store now config s).0 in
            let only =
              ap (row_answer (rows_of key)) changed
              ∙ row_answer-put_row key contents times (store.rows s.conn) in
            (
              fetch-stored store volume_aad key after found one
                  ∙ ap (first_record store volume_aad key) only
                  ∙ rw opened refl,
              (contents, store.db.answers (rows_of key) after.conn found one ∙ only),
            )
      ]
