-- ===== src/Tests/Deadman.antt =====
-- A dead man's switch with one network trigger.
use tgcryptfs.Deadman.Triggers.{
  TriggerParams, network_check, timed_out, succeeded, eval_params, evaluate_trigger, evaluate_all,
}
use tgcryptfs.Deadman.Destroy.{
  DestructionPhase, custom_command, DestructionConfig, DestructionProgress, Action, keys_wiped,
  file_shredded, phase_action, run_phase, run_phases, execute_with_options, execute,
}
use tgcryptfs.Deadman.Destroy.Phases.{NoPanic, Complete, Broken, execute_with_options-IsComplete}
use tgcryptfs.Deadman.Daemon.{DeadmanConfig, Seen, DaemonOutcome, check_triggers, grace, run_daemon}
use tgcryptfs.Deadman.Daemon.Grace.{Fires, run_daemon-Fires}
use tgcryptfs.Common.{
  ℕ, ◌≡◌, refl, Bool, true, false, none, some, [], ◌∷◌, ◌++◌, ok, err, All, ◌⊎◌, replicate,
}

abbrev pub all_work : Action → Bool
all_work action = true

abbrev pub config : DestructionConfig
config = record {
  phases = DestructionPhase.wipe_keys ∷ DestructionPhase.shred_database ∷ custom_command [] ∷ [];
  delete_telegram = true;
  shred_metadata_db = true;
  shred_passes = 3;
  wipe_key_hierarchy = true;
  wipe_cache_dir = true;
}

-- What the sequence has done when it is through.
abbrev finished : DestructionProgress
finished = record {
  total_phases = 3;
  completed_phases = 3;
  current_phase = none;
  errors = custom_command [] ∷ [];
  log = keys_wiped ∷ file_shredded [] 3 ∷ [];
}

shreds : execute all_work config (some []) none ≡ ok finished
unfolding execute execute_with_options run_phases run_phase phase_action
shreds = refl

-- A denied command with the inside of a character at byte 40, before a phase that is never reached.
abbrev breaking : DestructionConfig
breaking = record config {
  phases =
      DestructionPhase.wipe_keys
      ∷ custom_command (replicate 39 b'x' ++ 195 ∷ 169 ∷ [])
      ∷ DestructionPhase.shred_database
      ∷ [];
}

breaks :
    execute all_work breaking (some []) none
    ≡ err (record {
      total_phases = 3;
      completed_phases = 1;
      current_phase = some (custom_command (replicate 39 b'x' ++ 195 ∷ 169 ∷ []));
      errors = [];
      log = keys_wiped ∷ [];
    })
unfolding execute execute_with_options run_phases run_phase phase_action
breaks = refl

execute_with_options-IsComplete_example :
    (All (NoPanic all_work config (some []) none false) config.phases
      × (after : DestructionProgress) × (execute_with_options all_work config (some []) none false
          ≡ ok after)
      × Complete all_work config (some []) none false after)
    ⊎ ((after : DestructionProgress) × (execute_with_options all_work config (some []) none false
          ≡ err after)
        × Broken all_work config (some []) none false after)
execute_with_options-IsComplete_example =
    execute_with_options-IsComplete all_work config (some []) none false

abbrev pub unreachable : TriggerParams
unreachable = network_check [] 80 5

abbrev pub switch : DeadmanConfig
switch = record {
  check_interval_secs = 300;
  grace_period_secs = 1;
  triggers = record { id = []; active = true; params = unreachable } ∷ [];
  destruction = config;
}

abbrev pub seen_at : ℕ → Seen
seen_at elapsed = record {
  stop = false;
  armed_now = true;
  armed_at_check = true;
  world = record {
    connect = λ host port timeout. timed_out;
    command_output = λ command timeout. succeeded;
  };
  elapsed = elapsed;
  elapsed_again = elapsed;
}

-- What the daemon has done: it knows no path of a database.
abbrev pub wiped : DestructionProgress
wiped = record finished { log = keys_wiped ∷ [] }

run_daemon-Fires_example :
    Fires switch unreachable (seen_at 0 ∷ seen_at 500000000 ∷ seen_at 1000000000 ∷ [])
unfolding run_daemon grace check_triggers evaluate_all evaluate_trigger eval_params execute
    execute_with_options run_phases run_phase phase_action
run_daemon-Fires_example =
    run_daemon-Fires all_work switch unreachable wiped
      (seen_at 0 ∷ seen_at 500000000 ∷ seen_at 1000000000 ∷ []) refl

-- The thread pauses between the two readings of the clock, and the grace period ends meanwhile.
paused :
    run_daemon all_work switch
      (seen_at 0 ∷ record (seen_at 999999999) { elapsed_again = 1000000001 } ∷ [])
    ≡ some DaemonOutcome.panicked
unfolding run_daemon grace check_triggers evaluate_all evaluate_trigger eval_params
paused = refl

-- A round before the switch is armed.
abbrev unarmed : Seen
unarmed = record (seen_at 0) { armed_now = false }
