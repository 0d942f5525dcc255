-- ===== src/Deadman/Daemon.antt =====
-- crates/tgcryptfs-deadman/src/daemon.rs and trigger.rs. The flags are shared with other threads:
-- what the daemon reads of them, of the clock and of the triggers in each round is the next
-- element of a list. A run for which the list is too short goes on, and has no outcome yet.
pub mod Grace
pub mod Destroys
use tgcryptfs.Crypto.Aead.{Bytes}
use tgcryptfs.Deadman.Triggers.{
  TriggerParams, TriggerConfig, TriggerResult, satisfied, fired, error, World, evaluate_all,
}
use tgcryptfs.Deadman.Destroy.{DestructionConfig, DestructionProgress, Action, execute}
use tgcryptfs.Common.{
  ℕ, Bool, true, false, not, ◌||◌, Option, none, some, List, [], ◌∷◌, ltb, if◌then◌else◌, Result,
  ok, err, ◌*◌,
}

pub record DeadmanConfig : Type 0 where
  pub check_interval_secs : ℕ
  pub grace_period_secs : ℕ
  pub triggers : List TriggerConfig
  pub destruction : DestructionConfig

-- Only `disarmed` and `armed` are ever set.
pub data DeadmanState : Type 0 where
  disarmed armed destroying all_destroyed : DeadmanState
  grace_period : Bytes → ℕ → DeadmanState

pub record DeadmanController : Type 0 where
  pub is_armed : Bool
  pub state : DeadmanState
  pub is_shutdown : Bool

pub data DeadmanError : Type 0 where
  already_armed not_armed : DeadmanError

abbrev pub new_controller : DeadmanController
new_controller = record { is_armed = false; state = disarmed; is_shutdown = false }

unfoldable pub arm : DeadmanController → DeadmanController × Result DeadmanError (Unit {0})
arm c =
    if c.is_armed
    then (c, err already_armed)
    else (record c { is_armed = true; state = armed }, ok tt)

unfoldable pub disarm : DeadmanController → DeadmanController × Result DeadmanError (Unit {0})
disarm c =
    if not c.is_armed
    then (c, err not_armed)
    else (record { is_armed = false; state = disarmed; is_shutdown = true }, ok tt)

-- What the daemon reads in a round: its shutdown flag, the armed flag when it looks and when
-- `check` looks again, the world of the triggers, and the nanoseconds since the grace period began,
-- for the test of the loop and again for the time that remains.
pub record Seen : Type 0 where
  pub stop : Bool
  pub armed_now : Bool
  pub armed_at_check : Bool
  pub world : World
  pub elapsed : ℕ
  pub elapsed_again : ℕ

-- `panicked` is the model's own.
pub data DaemonOutcome : Type 0 where
  shutdown disarmed_in_time panicked : DaemonOutcome
  destroyed : TriggerParams → DestructionProgress → DaemonOutcome

unfoldable pub check_triggers : DeadmanConfig → Seen → TriggerResult
check_triggers config s =
    if not s.armed_at_check then satisfied else evaluate_all s.world config.triggers

-- `Duration::from_secs`
abbrev pub grace_nanos : DeadmanConfig → ℕ
grace_nanos config = config.grace_period_secs * 1000000000

-- How `run` ends with the destruction sequence.
abbrev pub end_of : TriggerParams → Result DestructionProgress DestructionProgress → DaemonOutcome
end_of reason (ok progress) = destroyed reason progress
end_of reason (err _) = panicked

module _ (works : Action → Bool) (config : DeadmanConfig) where
  -- The loop of the grace period, then the destruction. What is left of the period is computed from
  -- a second reading of the clock, and a difference of durations below zero is a panic.
  unfoldable pub grace : TriggerParams → List Seen → Option DaemonOutcome
  grace reason [] = none
  grace reason (s ∷ rest) =
      let later = grace reason rest in
      if not (ltb s.elapsed (grace_nanos config))
      then some (end_of reason (execute works config.destruction none none))
      else if not s.armed_now || s.stop
      then some disarmed_in_time
      else if ltb (grace_nanos config) s.elapsed_again
      then some panicked
      else later

  unfoldable pub run_daemon : List Seen → Option DaemonOutcome
  run_daemon [] = none
  run_daemon (s ∷ rest) =
      let later = run_daemon rest in
      if s.stop
      then some shutdown
      else if not s.armed_now
      then later
      else elim (check_triggers config s) [
        | satisfied ↦ later
        | error _ ↦ later
        | fired reason ↦ grace reason rest
      ]
