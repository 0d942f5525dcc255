-- ===== src/Deadman/Triggers.antt =====
-- crates/tgcryptfs-deadman/src/hooks/mod.rs. What a network connection or a command gives is a
-- parameter; a message is left out but for the kind of the trigger that it is about.
use tgcryptfs.Crypto.Aead.{Bytes}
use tgcryptfs.Common.{ℕ, Bool, true, false, not, List, [], ◌∷◌, if◌then◌else◌}

pub data OsEventType : Type 0 where
  user_login process_start : Bytes → OsEventType
  shutdown usb_insert : OsEventType

pub data TriggerParams : Type 0 where
  heartbeat : ℕ → TriggerParams
  network_check : Bytes → ℕ → ℕ → TriggerParams
  rpc_check : Bytes → ℕ → ℕ → TriggerParams
  os_event : OsEventType → TriggerParams
  custom : Bytes → ℕ → TriggerParams

pub record TriggerConfig : Type 0 where
  pub id : Bytes
  pub active : Bool
  pub params : TriggerParams

pub data TriggerResult : Type 0 where
  satisfied : TriggerResult
  fired error : TriggerParams → TriggerResult

-- How an awaited call ends: with a value, with its own error, or past the timeout.
pub data Awaited : Type 0 where
  succeeded refused failed timed_out : Awaited

-- What a connection to a host and a port, and a command, give within a timeout.
pub record World : Type 0 where
  pub connect : Bytes → ℕ → ℕ → Awaited
  pub command_output : Bytes → ℕ → Awaited

-- `refused` is no answer of `connect`, which has an error only.
abbrev pub eval_network : TriggerParams → Awaited → TriggerResult
eval_network p succeeded = satisfied
eval_network p refused = fired p
eval_network p failed = fired p
eval_network p timed_out = fired p

-- `refused` is an exit status that is not a success.
abbrev pub eval_custom : TriggerParams → Awaited → TriggerResult
eval_custom p succeeded = satisfied
eval_custom p refused = fired p
eval_custom p failed = error p
eval_custom p timed_out = fired p

module _ (world : World) where
  unfoldable pub eval_params : TriggerParams → TriggerResult
  eval_params (heartbeat timeout_secs) = satisfied
  eval_params (network_check host port timeout_secs) =
      eval_network (network_check host port timeout_secs) (world.connect host port timeout_secs)
  eval_params (rpc_check url expected_status timeout_secs) =
      error (rpc_check url expected_status timeout_secs)
  eval_params (os_event event_type) = error (os_event event_type)
  eval_params (custom command timeout_secs) =
      eval_custom (custom command timeout_secs) (world.command_output command timeout_secs)

  unfoldable pub evaluate_trigger : TriggerConfig → TriggerResult
  evaluate_trigger config = if not config.active then satisfied else eval_params config.params

  abbrev pub is_fired : TriggerResult → Bool
  is_fired (fired p) = true
  is_fired satisfied = false
  is_fired (error p) = false

  unfoldable pub evaluate_all : List TriggerConfig → TriggerResult
  evaluate_all [] = satisfied
  evaluate_all (config ∷ configs) =
      let rest = evaluate_all configs in
      let result = evaluate_trigger config in if is_fired result then result else rest
