-- ===== src/Api/Switch/Service.antt =====
-- What `arm`, `disarm` and `is_armed` mean for the daemon that runs beside them.
use mathlib.Core.Path.{subst}
use tgcryptfs.Api.{invalid_argument}
use tgcryptfs.Deadman.Triggers.{World}
use tgcryptfs.Deadman.Destroy.{Action, execute}
use tgcryptfs.Deadman.Daemon.{
  DeadmanConfig, Seen, DaemonOutcome, shutdown, disarmed_in_time, grace_nanos, end_of,
}
use tgcryptfs.Api.Switch.{
  Phase, watching, in_grace, ended, DaemonTask, DeadmanService, new_service, arm_service,
  disarm_service, store_daemon, service_is_armed, daemon_round, task_round, Event, arms_with,
  disarms, seen_by, daemon_turns, others_turn, happen, happen_all,
}
use tgcryptfs.Common.{
  ℕ, ◌≡◌, refl, sym, inl, inr, Bool, true, false, Option, none, some, List, [], ◌∷◌, map, arith,
  ltb, if◌then◌else◌, Bool-cases, Option-cases, err, All,
}

module _ (works : Action → Bool) where
  -- How a daemon ends that is told to stop: past its grace period it goes through the destruction
  -- all the same.
  abbrev pub stopped_end : DeadmanConfig → ℕ → Phase → DaemonOutcome
  stopped_end config elapsed watching = shutdown
  stopped_end config elapsed (in_grace reason) =
      if ltb elapsed (grace_nanos config)
      then disarmed_in_time
      else end_of reason (execute works config.destruction none none)
  stopped_end config elapsed (ended outcome) = outcome

  daemon_round_stopped :
      (config : DeadmanConfig) (s : Seen) (p : Phase)
      → s.stop ≡ true
      → s.armed_now ≡ true
      → daemon_round works config s p ≡ ended (stopped_end config s.elapsed p)
  unfolding daemon_round
  daemon_round_stopped config s watching h k = ground arith
  daemon_round_stopped config s (in_grace reason) h k =
      elim (Bool-cases (ltb s.elapsed (grace_nanos config))) [
        | inl early ↦ ground arith
        | inr over ↦ ground arith
      ]
  daemon_round_stopped config s (ended outcome) h k = refl

  abbrev pub Stops : DaemonTask → Type 0
  Stops task = task.stop ≡ true

  abbrev pub Runs : Option DaemonTask → Type 0
  Runs none = Unit
  Runs (some task) = task.stop ≡ false

  -- Only the service's own daemon is not told to stop.
  abbrev pub IsSingle : DeadmanService → Type 0
  IsSingle s = Runs s.daemon × All Stops s.detached

  Stops-rounds :
      (world : World) (elapsed elapsed_again : ℕ) (tasks : List DaemonTask)
      → All Stops tasks
      → All Stops (map (task_round works world elapsed elapsed_again) tasks)
  unfolding task_round
  Stops-rounds world elapsed elapsed_again [] h = tt
  Stops-rounds world elapsed elapsed_again (task ∷ tasks) (a, h) =
      (a, Stops-rounds world elapsed elapsed_again tasks h)

  happen-IsSingle_of :
      (e : Event works) (daemon : Option DaemonTask) (detached : List DaemonTask)
      → Runs daemon
      → All Stops detached
      → IsSingle (happen works e (record { daemon = daemon; detached = detached }))
  unfolding happen arm_service store_daemon disarm_service task_round
  happen-IsSingle_of (arms_with config) none detached r h = (refl, h)
  happen-IsSingle_of (arms_with config) (some task) detached r h = (r, h)
  happen-IsSingle_of disarms none detached r h = (tt, h)
  happen-IsSingle_of disarms (some task) detached r h = (tt, (refl, h))
  happen-IsSingle_of (daemon_turns world elapsed elapsed_again) none detached r h = (tt, h)
  happen-IsSingle_of (daemon_turns world elapsed elapsed_again) (some task) detached r h = (r, h)
  happen-IsSingle_of (others_turn world elapsed elapsed_again) none detached r h =
      (tt, Stops-rounds world elapsed elapsed_again detached h)
  happen-IsSingle_of (others_turn world elapsed elapsed_again) (some task) detached r h =
      (r, Stops-rounds world elapsed elapsed_again detached h)

  happen_all-IsSingle_from :
      (events : List (Event works)) (s : DeadmanService)
      → IsSingle s
      → IsSingle (happen_all works events s)
  unfolding happen_all
  happen_all-IsSingle_from [] s h = h
  happen_all-IsSingle_from (e ∷ events) s h =
      happen_all-IsSingle_from events (happen works e s)
        (happen-IsSingle_of e s.daemon s.detached h.0 h.1)

  abbrev pub HasEnded : DaemonTask → Type 0
  HasEnded task = (outcome : DaemonOutcome) × (task.phase ≡ ended outcome)

  Stops-HasEnded :
      (world : World) (elapsed elapsed_again : ℕ) (tasks : List DaemonTask)
      → All Stops tasks
      → All HasEnded (map (task_round works world elapsed elapsed_again) tasks)
  unfolding task_round
  Stops-HasEnded world elapsed elapsed_again [] h = tt
  Stops-HasEnded world elapsed elapsed_again (task ∷ tasks) (a, h) = (
    (
      stopped_end task.config elapsed task.phase,
      daemon_round_stopped task.config (seen_by works task world elapsed elapsed_again) task.phase a
          refl,
    ),
    Stops-HasEnded world elapsed elapsed_again tasks h,
  )

  -- After any calls and rounds from a new service, in any order, no daemon but the service's own is
  -- without its shutdown flag, and one round ends every other.
  pub happen_all-IsSingle :
      (events : List (Event works)) (world : World) (elapsed elapsed_again : ℕ)
      → IsSingle (happen_all works events new_service)
        × All HasEnded
            (happen works
              (others_turn world elapsed elapsed_again)
              (happen_all works events new_service)).detached
  unfolding happen
  happen_all-IsSingle events world elapsed elapsed_again =
      let single = happen_all-IsSingle_from events new_service (tt, tt) in
      (
        single,
        Stops-HasEnded world elapsed elapsed_again (happen_all works events new_service).detached
            single.1,
      )

  -- An event that is not a `disarm`.
  abbrev pub Keeps : Event works → Type 0
  Keeps (arms_with config) = Unit
  Keeps disarms = ⊥
  Keeps (daemon_turns world elapsed elapsed_again) = Unit
  Keeps (others_turn world elapsed elapsed_again) = Unit

  happen-armed :
      (e : Event works) (daemon : DaemonTask) (detached : List DaemonTask)
      → Keeps e
      → service_is_armed (happen works e (record { daemon = some daemon; detached = detached }))
        ≡ true
  unfolding happen arm_service service_is_armed
  happen-armed (arms_with config) daemon detached k = refl
  happen-armed disarms daemon detached k = absurd k
  happen-armed (daemon_turns world elapsed elapsed_again) daemon detached k = refl
  happen-armed (others_turn world elapsed elapsed_again) daemon detached k = refl

  refused_of :
      (daemon : Option DaemonTask) (detached : List DaemonTask) (config : DeadmanConfig)
      → service_is_armed (record { daemon = daemon; detached = detached }) ≡ true
      → arm_service config (record { daemon = daemon; detached = detached })
        ≡ (record { daemon = daemon; detached = detached }, err invalid_argument)
  unfolding arm_service service_is_armed
  refused_of none detached config h = absurd (ground arith)
  refused_of (some task) detached config h = refl

  armed_has :
      (s : DeadmanService)
      → service_is_armed s ≡ true
      → (task : DaemonTask) × (s.daemon ≡ some task)
  unfolding service_is_armed
  armed_has s h = elim (Option-cases s.daemon) [ inl e ↦ absurd (ground arith) | inr found ↦ found ]

  -- Once the service is armed, and until `disarm` is called, it says that it is armed and refuses
  -- `arm`, whatever rounds its daemon makes, also when the daemon has ended.
  happen_all-armed :
      (events : List (Event works)) (s : DeadmanService) (config : DeadmanConfig)
      → service_is_armed s ≡ true
      → All Keeps events
      → (service_is_armed (happen_all works events s) ≡ true)
        × (arm_service config (happen_all works events s)
            ≡ (happen_all works events s, err invalid_argument))
  unfolding happen_all arm_service
  happen_all-armed [] s config h k = (h, refused_of s.daemon s.detached config h)
  happen_all-armed (e ∷ events) s config h (k, ks) =
      let (task, has) = armed_has s h in
      let next : service_is_armed (happen works e s) ≡ true =
        subst
          (λ d.
            service_is_armed (happen works e (record { daemon = d; detached = s.detached })) ≡ true)
          (sym has) (happen-armed e task s.detached k) in
      happen_all-armed events (happen works e s) config next ks
