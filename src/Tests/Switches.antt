-- ===== src/Tests/Switches.antt =====
-- The service of the dead man's switch with its daemon.
use tgcryptfs.Api.{invalid_argument}
use tgcryptfs.Deadman.Triggers.{World, evaluate_all, evaluate_trigger, eval_params}
use tgcryptfs.Deadman.Destroy.{execute, execute_with_options, run_phases, run_phase, phase_action}
use tgcryptfs.Deadman.Daemon.{destroyed, check_triggers}
use tgcryptfs.Api.Switch.{
  in_grace, ended, DaemonTask, DeadmanService, new_service, store_daemon, arm_service,
  disarm_service, service_is_armed, status, daemon_round, task_round, Event, arms_with, disarms,
  daemon_turns, others_turn, happen, happen_all,
}
use tgcryptfs.Api.Switch.Service.{IsSingle, HasEnded, happen_all-IsSingle}
use tgcryptfs.Tests.Deadman.{switch, all_work, unreachable, seen_at, wiped}
use tgcryptfs.Common.{◌≡◌, refl, true, false, some, List, [], ◌∷◌, err, All}

abbrev world : World
world = (seen_at 0).world

-- The trigger fires in the first round; the daemon of the second `arm` is left running.
abbrev events : List (Event all_work)
events =
    arms_with switch ∷ daemon_turns world 0 0 ∷ disarms ∷ arms_with switch ∷ arms_with switch ∷ []

happen_all-IsSingle_example :
    IsSingle all_work (happen_all all_work events new_service)
    × All
        (HasEnded all_work)
        (happen all_work (others_turn world 1 1) (happen_all all_work events new_service)).detached
happen_all-IsSingle_example = happen_all-IsSingle all_work events world 1 1

abbrev waiting : DaemonTask
waiting = record { config = switch; stop = false; phase = in_grace unreachable }

abbrev service : DeadmanService
service = record { daemon = some waiting; detached = [] }

fires : happen_all all_work (arms_with switch ∷ daemon_turns world 0 0 ∷ []) new_service ≡ service
unfolding happen_all happen arm_service store_daemon task_round daemon_round check_triggers
    evaluate_all evaluate_trigger eval_params
fires = refl

status_in_grace : status false service ≡ record {
  configured = true;
  armed = true;
  check_interval_secs = 300;
  grace_period_secs = 1;
  trigger_count = 1;
}
unfolding status
status_in_grace = refl

-- The call comes in time, but the daemon looks again when the grace period is over.
too_late :
    (happen all_work (others_turn world 1000000000 1000000000) (disarm_service service).0).detached
    ≡ record { config = switch; stop = true; phase = ended (destroyed unreachable wiped) } ∷ []
unfolding happen disarm_service task_round daemon_round execute execute_with_options run_phases
    run_phase phase_action
too_late = refl

-- The keys are wiped, and the service goes on as before.
still_armed :
    let after = happen_all all_work (daemon_turns world 1000000000 1000000000 ∷ []) service in
    (service_is_armed after ≡ true) × (arm_service switch after ≡ (after, err invalid_argument))
unfolding service_is_armed happen_all happen arm_service
still_armed = (refl, refl)
