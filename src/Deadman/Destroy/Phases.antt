-- ===== src/Deadman/Destroy/Phases.antt =====
-- What the destruction sequence has done at its end.
use mathlib.Core.Path.{subst}
use tgcryptfs.Crypto.Aead.{Bytes}
use tgcryptfs.Deadman.Destroy.{
  DestructionPhase, DestructionConfig, Action, DestructionProgress, PhaseError, phase_action,
  phase_panics, phase_works, logged, run_phase, run_phases, first_progress, execute_with_options,
}
use tgcryptfs.Common.{
  ◌+◌, ◌≡◌, refl, sym, ap, ◌∙◌, inl, inr, Bool, true, false, Option, none, List, [], ◌∷◌, ◌++◌,
  arith, if◌then◌else◌, Bool-cases, Result, length, All, ok, err, ◌⊎◌, some,
}

append_assoc : {A : Type 0} (xs ys zs : List A) → (xs ++ ys) ++ zs ≡ xs ++ (ys ++ zs)
append_assoc [] ys zs = refl
append_assoc (x ∷ xs) ys zs = ap (λ l. x ∷ l) (append_assoc xs ys zs)

append_nil : {A : Type 0} (xs : List A) → xs ++ [] ≡ xs
append_nil [] = refl
append_nil (x ∷ xs) = ap (λ l. x ∷ l) (append_nil xs)

All-middle :
    {A : Type 0} (P : A → Type 0) (xs : List A) (x : A) (ys : List A) → All P (xs ++ x ∷ ys) → P x
All-middle P [] x ys h = h.0
All-middle P (_ ∷ xs) x ys h = All-middle P xs x ys h.1

not_both : {b : Bool} → b ≡ false → b ≡ true → ⊥
not_both f t = absurd (ground (arith, f, t))

module _ (works : Action → Bool) (config : DestructionConfig) (db_path cache_dir : Option Bytes)
    (allowed : Bool) where
  abbrev act : DestructionPhase → Result PhaseError (Option Action)
  act phase = phase_action config db_path cache_dir allowed phase

  -- The actions of the phases, in order, and the phases that fail.
  abbrev pub all_actions : List DestructionPhase → List Action
  all_actions [] = []
  all_actions (phase ∷ phases) = logged works (act phase) ++ all_actions phases

  abbrev pub failing : List DestructionPhase → List DestructionPhase
  failing [] = []
  failing (phase ∷ phases) =
      let rest = failing phases in if phase_works works (act phase) then rest else phase ∷ rest

  abbrev pub Panics : DestructionPhase → Type 0
  Panics phase = phase_panics (act phase) ≡ true

  abbrev pub NoPanic : DestructionPhase → Type 0
  NoPanic phase = phase_panics (act phase) ≡ false

  -- What has been added to the progress by the phases `done`.
  record Adds (done : List DestructionPhase) (p after : DestructionProgress) : Type 0 where
    pub count : after.completed_phases ≡ p.completed_phases + length done
    pub total : after.total_phases ≡ p.total_phases
    pub failed : after.errors ≡ p.errors ++ failing done
    pub logs : after.log ≡ p.log ++ all_actions done

  Adds-nil : (p : DestructionProgress) → Adds [] p p
  Adds-nil p = record {
    count = omega arith;
    total = refl;
    failed = sym (append_nil p.errors);
    logs = sym (append_nil p.log);
  }

  -- The progress after a phase that does not panic.
  abbrev stepped : DestructionPhase → DestructionProgress → DestructionProgress
  stepped phase p = record p {
    current_phase = some phase;
    completed_phases = p.completed_phases + 1;
    errors = if phase_works works (act phase) then p.errors else p.errors ++ phase ∷ [];
    log = p.log ++ logged works (act phase);
  }

  stepped_lem :
      (phase : DestructionPhase) (p : DestructionProgress)
      → NoPanic phase
      → run_phase works config db_path cache_dir allowed phase p ≡ ok (stepped phase p)
  unfolding run_phase
  stepped_lem phase p h = rw (h, run_phase) refl

  split :
      (phase : DestructionPhase) (p : DestructionProgress) (phases : List DestructionPhase)
      → (if phase_works works (act phase) then p.errors else p.errors ++ phase ∷ [])
          ++ failing phases
        ≡ p.errors ++ failing (phase ∷ phases)
  split phase p phases = elim (Bool-cases (phase_works works (act phase))) [
    | inl e ↦ rw e refl
    | inr e ↦ rw e (append_assoc p.errors (phase ∷ []) (failing phases))
  ]

  Adds-cons :
      (phase : DestructionPhase) (done : List DestructionPhase) (p after : DestructionProgress)
      → Adds done (stepped phase p) after
      → Adds (phase ∷ done) p after
  Adds-cons phase done p after x = record {
    count = omega (arith, x.count);
    total = x.total;
    failed = x.failed ∙ split phase p done;
    logs = x.logs ∙ append_assoc p.log (logged works (act phase)) (all_actions done);
  }

  -- A phase panics, after others that did not.
  record Stopped (phases : List DestructionPhase) (p after : DestructionProgress) : Type 0 where
    pub done : List DestructionPhase
    pub phase : DestructionPhase
    pub rest : List DestructionPhase
    pub parts : phases ≡ done ++ phase ∷ rest
    pub before : All NoPanic done
    pub now : Panics phase
    pub current : after.current_phase ≡ some phase
    pub adds : Adds done p after

  Stopped-cons :
      (phase : DestructionPhase) (phases : List DestructionPhase) (p after : DestructionProgress)
      → NoPanic phase
      → Stopped phases (stepped phase p) after
      → Stopped (phase ∷ phases) p after
  Stopped-cons phase phases p after calm x = record {
    done = phase ∷ x.done;
    phase = x.phase;
    rest = x.rest;
    parts = ap (λ l. phase ∷ l) x.parts;
    before = (calm, x.before);
    now = x.now;
    current = x.current;
    adds = Adds-cons phase x.done p after x.adds;
  }

  abbrev Runs :
      List DestructionPhase
      → DestructionProgress
      → Result DestructionProgress DestructionProgress
      → Type 0
  Runs phases p out =
      (All NoPanic phases × (after : DestructionProgress) × (out ≡ ok after) × Adds phases p after)
      ⊎ ((after : DestructionProgress) × (out ≡ err after) × Stopped phases p after)

  run_phases-Runs :
      (phases : List DestructionPhase) (p : DestructionProgress)
      → Runs phases p (run_phases works config db_path cache_dir allowed phases p)
  unfolding run_phases
  run_phases-Runs [] p = inl (tt, p, refl, Adds-nil p)
  run_phases-Runs (phase ∷ phases) p = elim (Bool-cases (phase_panics (act phase))) [
    | inl e ↦
        let stopped : DestructionProgress = record p { current_phase = some phase } in
        inr (
          stopped,
          unfold run_phase in rw (e, run_phases, run_phase) refl,
          record {
            done = [];
            phase = phase;
            rest = phases;
            parts = refl;
            before = tt;
            now = e;
            current = refl;
            adds = record {
              count = omega arith;
              total = refl;
              failed = sym (append_nil p.errors);
              logs = sym (append_nil p.log);
            };
          },
        )
    | inr e ↦
        rw (run_phases, stepped_lem phase p e)
          (elim (run_phases-Runs phases (stepped phase p)) [
            | inl (calm, after, h, x) ↦ inl ((e, calm), after, h, Adds-cons phase phases p after x)
            | inr (after, h, x) ↦ inr (after, h, Stopped-cons phase phases p after e x)
          ])
  ]

  -- Every phase has been gone through, also past those that fail: all are reported as completed and
  -- none as current, the errors are those of the phases that fail, in order, and what was done is the
  -- action of each phase, in order.
  pub record Complete (after : DestructionProgress) : Type 0 where
    pub all_done : after.completed_phases ≡ after.total_phases
    pub none_left : after.current_phase ≡ none
    pub failed : after.errors ≡ failing config.phases
    pub logs : after.log ≡ all_actions config.phases

  -- One phase panicked: the phases before it, of which none did, have been gone through, and those
  -- behind it never are.
  pub record Broken (after : DestructionProgress) : Type 0 where
    pub done : List DestructionPhase
    pub phase : DestructionPhase
    pub rest : List DestructionPhase
    pub parts : config.phases ≡ done ++ phase ∷ rest
    pub before : All NoPanic done
    pub now : Panics phase
    pub current : after.current_phase ≡ some phase
    pub count : after.completed_phases ≡ length done
    pub failed : after.errors ≡ failing done
    pub logs : after.log ≡ all_actions done

  -- Either no phase panics, which only the message for a denied command does, and the sequence goes
  -- through every phase, also past those that fail: it reports all of them as completed and none as
  -- current, its errors are those of the phases that fail, in order, and what it has done is the
  -- action of each phase, in order. Or it panics at the first phase that does, and then it has gone
  -- through those before it, and never goes through those behind it.
  pub execute_with_options-IsComplete :
      let out = execute_with_options works config db_path cache_dir allowed in
      (All NoPanic config.phases
        × (after : DestructionProgress) × (out ≡ ok after)
        × Complete after)
      ⊎ ((after : DestructionProgress) × (out ≡ err after) × Broken after)
  unfolding execute_with_options
  execute_with_options-IsComplete =
      elim (run_phases-Runs config.phases (first_progress works config)) [
        | inl (calm, after, h, x) ↦ inl (
          calm,
          record after { current_phase = none },
          rw (h, execute_with_options) refl,
          record {
            all_done = x.count ∙ omega arith ∙ sym x.total;
            none_left = refl;
            failed = x.failed;
            logs = x.logs;
          },
        )
        | inr (after, h, x) ↦ inr (
          after,
          rw (h, execute_with_options) refl,
          record {
            done = x.done;
            phase = x.phase;
            rest = x.rest;
            parts = x.parts;
            before = x.before;
            now = x.now;
            current = x.current;
            count = omega (arith, x.adds.count);
            failed = x.adds.failed;
            logs = x.adds.logs;
          },
        )
      ]

  -- Without a phase that panics.
  pub execute_with_options-Complete :
      All NoPanic config.phases
      → (after : DestructionProgress) × (execute_with_options works config db_path cache_dir allowed
          ≡ ok after)
        × Complete after
  execute_with_options-Complete calm = elim execute_with_options-IsComplete [
    | inl (_, after, h, x) ↦ (after, h, x)
    | inr (after, _, x) ↦ absurd (
        not_both
          (All-middle NoPanic x.done x.phase x.rest (subst (λ l. All NoPanic l) x.parts calm))
          x.now)
  ]
