-- ===== src/Api/Switch.antt =====
-- crates/tgcryptfs-api/src/service/deadman.rs: the daemon of the dead man's switch as a task beside the
-- service. `arm` spawns it, `disarm` sets its shutdown flag and lets go of it, and in between and after
-- it makes its rounds. The controller of a daemon is armed before it is spawned and never disarmed.
pub mod Rounds
pub mod Service
use tgcryptfs.Api.{ApiError, invalid_argument}
use tgcryptfs.Deadman.Triggers.{TriggerParams, TriggerResult, satisfied, fired, error, World}
use tgcryptfs.Deadman.Destroy.{Action, execute}
use tgcryptfs.Deadman.Daemon.{
  DeadmanConfig, Seen, check_triggers, DaemonOutcome, shutdown, disarmed_in_time, panicked,
  grace_nanos, end_of,
}
use tgcryptfs.Common.{
  ℕ, Bool, true, false, not, ◌||◌, Option, none, some, List, [], ◌∷◌, map, ltb, if◌then◌else◌,
  Result, ok, err, length,
}

-- Where the loops of `run` stand.
pub data Phase : Type 0 where
  watching : Phase
  in_grace : TriggerParams → Phase
  ended : DaemonOutcome → Phase

pub record DaemonTask : Type 0 where
  pub config : DeadmanConfig
  pub stop : Bool
  pub phase : Phase

-- The state of the service, with the tasks that it let go of, which run on.
pub record DeadmanService : Type 0 where
  pub daemon : Option DaemonTask
  pub detached : List DaemonTask

pub record DeadmanStatus : Type 0 where
  pub configured : Bool
  pub armed : Bool
  pub check_interval_secs : ℕ
  pub grace_period_secs : ℕ
  pub trigger_count : ℕ

abbrev pub new_service : DeadmanService
new_service = record { daemon = none; detached = [] }

-- `*guard = Some(..)` drops what stood there, and the task behind a dropped handle runs on.
unfoldable pub store_daemon : DaemonTask → DeadmanService → DeadmanService
store_daemon task s = record {
  daemon = some task;
  detached = elim s.daemon [ none ↦ s.detached | some dropped ↦ dropped ∷ s.detached ];
}

unfoldable pub arm_service :
    DeadmanConfig → DeadmanService → DeadmanService × Result ApiError (Unit {0})
arm_service config s = elim s.daemon [
  | some _ ↦ (s, err invalid_argument)
  | none ↦ (store_daemon (record { config = config; stop = false; phase = watching }) s, ok tt)
]

unfoldable pub disarm_service : DeadmanService → DeadmanService × Result ApiError (Unit {0})
disarm_service s = elim s.daemon [
  | none ↦ (s, err invalid_argument)
  | some task ↦
      (record { daemon = none; detached = record task { stop = true } ∷ s.detached }, ok tt)
]

unfoldable pub service_is_armed : DeadmanService → Bool
service_is_armed s = elim s.daemon [ none ↦ false | some _ ↦ true ]

-- `file_exists`: the configuration file is there.
unfoldable pub status : Bool → DeadmanService → DeadmanStatus
status file_exists s = elim s.daemon [
  | some task ↦ record {
    configured = true;
    armed = true;
    check_interval_secs = task.config.check_interval_secs;
    grace_period_secs = task.config.grace_period_secs;
    trigger_count = length task.config.triggers;
  }
  | none ↦ record {
    configured = file_exists;
    armed = false;
    check_interval_secs = 0;
    grace_period_secs = 0;
    trigger_count = 0;
  }
]

module _ (works : Action → Bool) where
  -- One round of the outer loop or of the loop of the grace period, or none when the daemon has ended.
  unfoldable pub daemon_round : DeadmanConfig → Seen → Phase → Phase
  daemon_round config s watching =
      if s.stop
      then ended shutdown
      else if not s.armed_now
      then watching
      else elim (check_triggers config s) [
        | satisfied ↦ watching
        | error _ ↦ watching
        | fired reason ↦ in_grace reason
      ]
  daemon_round config s (in_grace reason) =
      if not (ltb s.elapsed (grace_nanos config))
      then ended (end_of reason (execute works config.destruction none none))
      else if not s.armed_now || s.stop
      then ended disarmed_in_time
      else if ltb (grace_nanos config) s.elapsed_again
      then ended panicked
      else in_grace reason
  daemon_round config s (ended outcome) = ended outcome

  -- What the task reads, with its own flag and an armed controller.
  abbrev pub seen_by : DaemonTask → World → ℕ → ℕ → Seen
  seen_by task world elapsed elapsed_again = record {
    stop = task.stop;
    armed_now = true;
    armed_at_check = true;
    world = world;
    elapsed = elapsed;
    elapsed_again = elapsed_again;
  }

  unfoldable pub task_round : World → ℕ → ℕ → DaemonTask → DaemonTask
  task_round world elapsed elapsed_again task = record task {
    phase = daemon_round task.config (seen_by task world elapsed elapsed_again) task.phase;
  }

  abbrev pub optional_round : World → ℕ → ℕ → Option DaemonTask → Option DaemonTask
  optional_round world elapsed elapsed_again none = none
  optional_round world elapsed elapsed_again (some task) =
      some (task_round world elapsed elapsed_again task)

  -- What happens next: a call of the service, a round of its daemon, or a round of all the others.
  pub data Event : Type 0 where
    arms_with : DeadmanConfig → Event
    disarms : Event
    daemon_turns others_turn : World → ℕ → ℕ → Event

  unfoldable pub happen : Event → DeadmanService → DeadmanService
  happen (arms_with config) s = (arm_service config s).0
  happen disarms s = (disarm_service s).0
  happen (daemon_turns world elapsed elapsed_again) s = record s {
    daemon = optional_round world elapsed elapsed_again s.daemon;
  }
  happen (others_turn world elapsed elapsed_again) s = record s {
    detached = map (task_round world elapsed elapsed_again) s.detached;
  }

  unfoldable pub happen_all : List Event → DeadmanService → DeadmanService
  happen_all [] s = s
  happen_all (e ∷ es) s = happen_all es (happen e s)
