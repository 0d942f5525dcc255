-- ===== src/Tests/Records.antt =====
-- The stores of switches and users, run.
use tgcryptfs.Crypto.Aead.{nonce_size, Bytes, encrypt}
use tgcryptfs.Common.Dict.{list_eq, nat_eq}
use tgcryptfs.Fuse.Store.{Session}
use tgcryptfs.Fuse.BlockRows.{pos}
use tgcryptfs.Records.{
  TableRow, row_effect, row_answer, rows_of, rows_where, run_statement, save, seal_record, fetch,
  fetch_where,
}
use tgcryptfs.Records.Refinement.{
  RecordCall, AnswersAnyOrder, saves, changes, deletes, meant, perform, run_calls, answered,
  run_calls-answered,
}
use tgcryptfs.Records.Users.{UserRecord, user_aad, insert_user}
use tgcryptfs.Records.Switches.{DeadmanRecord, SwitchColumns, get_switch, set_armed, upsert}
use tgcryptfs.Records.Columns.{ColumnsPass}
use tgcryptfs.Records.Kept.{arms, checks, touch, touches, bool_eq, set_armed-get_switch}
use tgcryptfs.Records.Volumes.{VolumeTimes, VolumeStore, save_config}
use tgcryptfs.Volume.Config.{VolumeConfig, uncompressed}
use tgcryptfs.Tests.Toy.{toy}
use tgcryptfs.Tests.ConfigCodec.{to_json, from_json, reads_back}
use tgcryptfs.Tests.RecordCodec.{RowConn, row_db, swap_two, switches, users}
use tgcryptfs.Common.{
  map, replicate, ℕ, ◌≡◌, refl, Bool, true, false, none, some, List, [], ◌∷◌, ok,
}

abbrev user : ℕ → UserRecord
user n = record {
  user_id = n ∷ [];
  telegram_user_id = pos 5;
  display_name = 65 ∷ [];
  access_level = 82 ∷ [];
  mlkem_public_key = 9 ∷ 9 ∷ [];
  wrapped_keys = 8 ∷ [];
  granted_at = pos 100;
  last_validated = none;
  active = true;
}

abbrev user_row : ℕ → TableRow Bytes Bool UserRecord
user_row n = record { key = n ∷ []; contents = user n; columns = true }

abbrev no_users : List Bool → Session (RowConn Bytes Bool)
no_users faults = record { conn = ([], faults); drawn = 0 }

-- The second call fails.
abbrev calls : List (RecordCall Bytes Bool UserRecord)
calls =
    saves (1 ∷ []) true (user 1)
    ∷ saves (2 ∷ []) true (user 2)
    ∷ saves (3 ∷ []) true (user 3)
    ∷ saves (4 ∷ []) true (user 4)
    ∷ changes (3 ∷ []) (λ _. false)
    ∷ deletes (1 ∷ [])
    ∷ []

abbrev after_calls : Session (RowConn Bytes Bool)
after_calls = run_calls users user_aad calls (no_users (false ∷ true ∷ []))

run_calls-answered_example :
    (fetch users user_aad (3 ∷ []) after_calls ≡ ok (some (user 3)))
    × AnswersAnyOrder users user_aad
        (λ _. true)
        (record (user_row 3) { columns = false } ∷ user_row 4 ∷ [])
        (fetch_where users user_aad (λ _. true) after_calls)
unfolding run_calls answered meant perform save run_statement row_effect row_answer seal_record
    encrypt
run_calls-answered_example =
    run_calls-answered users user_aad calls (no_users (false ∷ true ∷ [])) [] (3 ∷ []) (λ _. true)
      (row_answer (rows_of (3 ∷ [])) after_calls.conn.0)
      (swap_two (row_answer (rows_where (λ _. true)) after_calls.conn.0)) tt refl refl

abbrev two_users : Session (RowConn Bytes Bool)
two_users = (insert_user users (user 2) (insert_user users (user 1) (no_users [])).0).0

abbrev disarmed : DeadmanRecord
disarmed = record { volume_id = 7 ∷ []; armed = false; config_data = 1 ∷ []; last_check = none }

abbrev stored_switch : Session (RowConn Bytes SwitchColumns)
stored_switch = (upsert switches disarmed (record { conn = ([], []); drawn = 0 })).0

abbrev armed_switch : Session (RowConn Bytes SwitchColumns)
armed_switch =
    (set_armed switches (7 ∷ []) true
      (touches switches (7 ∷ []) (arms false ∷ checks (pos 3) ∷ []) stored_switch)).0

set_armed-get_switch_example :
    ColumnsPass (7 ∷ []) (λ c. bool_eq c.armed_flag true) armed_switch.conn.0
    × (get_switch switches (7 ∷ []) armed_switch ≡ get_switch switches (7 ∷ []) stored_switch)
unfolding save run_statement row_effect row_answer seal_record encrypt touches touch
set_armed-get_switch_example =
    set_armed-get_switch switches (7 ∷ []) (arms false ∷ checks (pos 3) ∷ []) true stored_switch
      (row_answer (rows_of (7 ∷ [])) stored_switch.conn.0)
      (row_answer (rows_of (7 ∷ [])) armed_switch.conn.0) refl refl refl

abbrev volumes : VolumeStore
volumes = record {
  db = row_db;
  cipher = toy;
  meta_key = 1 ∷ [];
  nonce = λ n. replicate nonce_size n;
  sized = λ n. refl;
  serialize = λ c. some (to_json c);
  deserialize = from_json;
  deserializes = reads_back;
}

abbrev config : VolumeConfig
config = record {
  volume_id = 4 ∷ [];
  display_name = 65 ∷ [];
  group_name = 66 ∷ [];
  telegram_group_id = pos 0;
  current_epoch = 1;
  salt = 3 ∷ [];
  kdf_params = record { memory_kib = 1; iterations = 1; parallelism = 1; output_len = 32 };
  block_config = record {
    min_block_size = 1;
    max_block_size = 4;
    target_block_size = 2;
    compression = uncompressed;
  };
  default_policy_id = 0;
  cache_config = record { enabled = true; max_size = 9; metadata_cache = true; prefetch_depth = 1 };
  created_at = pos 10;
  password_verification_hash = none;
}

-- The configuration, saved at 20.
abbrev saved_once : Session (RowConn Bytes VolumeTimes)
saved_once = (save_config volumes 20 config (record { conn = ([], []); drawn = 0 })).0

abbrev saved_again : List (TableRow Bytes VolumeTimes Bytes)
saved_again = row_answer (rows_of (4 ∷ [])) (save_config volumes 30 config saved_once).0.conn.0

-- The time of the creation is the time of the second call.
resaved :
    map (λ (r : TableRow Bytes VolumeTimes Bytes). r.columns) saved_again
    ≡ record { created_at = 30; updated_at = 30 } ∷ []
unfolding save run_statement row_effect row_answer seal_record encrypt
resaved = refl
