-- ===== src/Api/Switch/Rounds.antt =====
-- The rounds of the daemon, taken one by one, against its loops.
use tgcryptfs.Deadman.Triggers.{TriggerParams, TriggerResult, satisfied, fired, error}
use tgcryptfs.Deadman.Destroy.{Action, execute}
use tgcryptfs.Deadman.Daemon.{
  DeadmanConfig, Seen, check_triggers, grace, run_daemon, DaemonOutcome, shutdown, disarmed_in_time,
  panicked, grace_nanos, end_of,
}
use tgcryptfs.Api.Switch.{Phase, watching, in_grace, ended, daemon_round}
use tgcryptfs.Common.{
  ◌≡◌, refl, ◌⊎◌, inl, inr, Bool, not, ◌||◌, Option, none, some, List, [], ◌∷◌, arith, ltb,
  Bool-cases,
}

abbrev outcome_of : Phase → Option DaemonOutcome
outcome_of watching = none
outcome_of (in_grace reason) = none
outcome_of (ended outcome) = some outcome

TriggerResult-cases :
    (r : TriggerResult)
    → (r ≡ satisfied)
      ⊎ (((e : TriggerParams) × (r ≡ error e)) ⊎ ((reason : TriggerParams) × (r ≡ fired reason)))
TriggerResult-cases satisfied = inl refl
TriggerResult-cases (error e) = inr (inl (e, refl))
TriggerResult-cases (fired reason) = inr (inr (reason, refl))

module _ (works : Action → Bool) (config : DeadmanConfig) where
  rounds : List Seen → Phase → Phase
  rounds [] p = p
  rounds (s ∷ rest) p = rounds rest (daemon_round works config s p)

  rounds_ended : (seen : List Seen) (o : DaemonOutcome) → rounds seen (ended o) ≡ ended o
  unfolding rounds daemon_round
  rounds_ended [] o = refl
  rounds_ended (s ∷ rest) o = rounds_ended rest o

  rounds-in_grace :
      (seen : List Seen) (reason : TriggerParams)
      → outcome_of (rounds seen (in_grace reason)) ≡ grace works config reason seen
  unfolding rounds daemon_round grace
  rounds-in_grace [] reason = refl
  rounds-in_grace (s ∷ rest) reason = elim (Bool-cases (ltb s.elapsed (grace_nanos config))) [
    | inr over ↦
        ground
          (arith, rounds_ended rest (end_of reason (execute works config.destruction none none)))
    | inl early ↦ elim (Bool-cases (not s.armed_now || s.stop)) [
      | inl off ↦ ground (arith, rounds_ended rest disarmed_in_time)
      | inr on ↦ elim (Bool-cases (ltb (grace_nanos config) s.elapsed_again)) [
        | inl over ↦ ground (arith, rounds_ended rest panicked)
        | inr left ↦ ground (arith, rounds-in_grace rest reason)
      ]
    ]
  ]

  -- The rounds one after the other end as the loop of `run` ends, with the same outcome, and they go on
  -- where it goes on.
  rounds-run_daemon :
      (seen : List Seen) → outcome_of (rounds seen watching) ≡ run_daemon works config seen
  unfolding rounds daemon_round run_daemon
  rounds-run_daemon [] = refl
  rounds-run_daemon (s ∷ rest) = elim (Bool-cases s.stop) [
    | inl stopped ↦ ground (arith, rounds_ended rest shutdown)
    | inr going ↦ elim (Bool-cases s.armed_now) [
      | inr off ↦ ground (arith, rounds-run_daemon rest)
      | inl on ↦ elim (TriggerResult-cases (check_triggers config s)) [
        | inl quiet ↦ ground (arith, rounds-run_daemon rest)
        | inr (inl (e, failed)) ↦ ground (arith, rounds-run_daemon rest)
        | inr (inr (reason, fires)) ↦ ground (arith, rounds-in_grace rest reason)
      ]
    ]
  ]
