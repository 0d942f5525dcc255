-- ===== src/Deadman/Daemon/Grace.antt =====
-- When the daemon destroys.
use tgcryptfs.Deadman.Triggers.{TriggerParams, TriggerResult, satisfied, fired, error}
use tgcryptfs.Deadman.Destroy.{DestructionProgress, Action, execute}
use tgcryptfs.Deadman.Daemon.{
  DeadmanConfig, Seen, destroyed, check_triggers, grace, run_daemon, grace_nanos, end_of,
}
use tgcryptfs.Common.{
  ◌≤◌, ◌<◌, ◌≡◌, refl, sym, ap, ◌∙◌, ◌⊎◌, inl, inr, Bool, true, false, not, ◌||◌, some, List, [],
  ◌∷◌, ◌++◌, arith, ltb, ltb→lt, Bool-cases, All, Result, ok, err, none,
}

-- The grace period goes on: time is left, the switch is armed, nothing stops the daemon, and what is
-- left is not below zero when it is computed.
abbrev pub Waits : DeadmanConfig → Seen → Type 0
Waits config s =
    (s.elapsed < grace_nanos config)
    × (s.armed_now ≡ true)
    × (s.stop ≡ false)
    × (s.elapsed_again ≤ grace_nanos config)

-- After rounds of waiting the grace period is over.
pub record Expires (config : DeadmanConfig) (seen : List Seen) : Type 0 where
  pub waiting : List Seen
  pub last : Seen
  pub after : List Seen
  pub split : seen ≡ waiting ++ last ∷ after
  pub waits : All (Waits config) waiting
  pub over : grace_nanos config ≤ last.elapsed

-- A trigger fires while the switch is armed, and then the grace period expires.
pub record Fires (config : DeadmanConfig) (reason : TriggerParams) (seen : List Seen) : Type 0 where
  pub before : List Seen
  pub now : Seen
  pub rest : List Seen
  pub split : seen ≡ before ++ now ∷ rest
  pub is_armed : now.armed_now ≡ true
  pub not_stopped : All (λ s. s.stop ≡ false) (before ++ now ∷ [])
  pub has_fired : check_triggers config now ≡ fired reason
  pub expires : Expires config rest

abbrev pub is_fired : TriggerResult → Bool
is_fired (fired p) = true
is_fired satisfied = false
is_fired (error p) = false

Result-kinds : (r : TriggerResult) → (is_fired r ≡ false) ⊎ ((p : TriggerParams) × (r ≡ fired p))
Result-kinds satisfied = inl refl
Result-kinds (error p) = inl refl
Result-kinds (fired p) = inr (p, refl)

module _ (works : Action → Bool) (config : DeadmanConfig) where
  later :
      {p : TriggerParams} (s : Seen) (rest : List Seen)
      → s.stop ≡ false
      → Fires config p rest
      → Fires config p (s ∷ rest)
  later s rest e x = record {
    before = s ∷ x.before;
    now = x.now;
    rest = x.rest;
    split = ap (λ l. s ∷ l) x.split;
    is_armed = x.is_armed;
    not_stopped = (e, x.not_stopped);
    has_fired = x.has_fired;
    expires = x.expires;
  }

  unfired :
      (s : Seen) (rest : List Seen)
      → s.stop ≡ false
      → s.armed_now ≡ true
      → is_fired (check_triggers config s) ≡ false
      → run_daemon works config rest ≡ run_daemon works config (s ∷ rest)
  unfolding run_daemon
  unfired s rest e f ends = ground arith

  fires :
      (s : Seen) (rest : List Seen) (reason : TriggerParams)
      → s.stop ≡ false
      → s.armed_now ≡ true
      → check_triggers config s ≡ fired reason
      → run_daemon works config (s ∷ rest) ≡ grace works config reason rest
  unfolding run_daemon
  fires s rest reason e f g = rw (g, e, f, run_daemon) refl

end_of_reason :
    (reason p : TriggerParams) (progress : DestructionProgress)
    (out : Result DestructionProgress DestructionProgress)
    → some (end_of reason out) ≡ some (destroyed p progress)
    → p ≡ reason
end_of_reason reason p progress (ok done) h = ground arith
end_of_reason reason p progress (err done) h = absurd (ground arith)

module _ (works : Action → Bool) (config : DeadmanConfig) where
  grace-Expires :
      (reason p : TriggerParams) (progress : DestructionProgress) (seen : List Seen)
      → grace works config reason seen ≡ some (destroyed p progress)
      → (p ≡ reason) × Expires config seen
  unfolding grace
  grace-Expires reason p progress [] h = absurd (ground arith)
  grace-Expires reason p progress (s ∷ rest) h =
      elim (Bool-cases (ltb s.elapsed (grace_nanos config))) [
        | inr e ↦ (
          end_of_reason reason p progress (execute works config.destruction none none)
              (ground arith),
          record {
            waiting = [];
            last = s;
            after = rest;
            split = refl;
            waits = tt;
            over = ground arith;
          },
        )
        | inl e ↦ elim (Bool-cases (not s.armed_now || s.stop)) [
          | inl f ↦ absurd (ground arith)
          | inr f ↦ elim (Bool-cases (ltb (grace_nanos config) s.elapsed_again)) [
            | inl g ↦ absurd (ground arith)
            | inr g ↦
                let (same, x) = grace-Expires reason p progress rest (ground arith) in
                (
                  same,
                  record {
                    waiting = s ∷ x.waiting;
                    last = x.last;
                    after = x.after;
                    split = ap (λ l. s ∷ l) x.split;
                    waits = (
                      (
                        ltb→lt s.elapsed (grace_nanos config) e,
                        ground arith,
                        ground arith,
                        ground arith,
                      ),
                      x.waits,
                    );
                    over = x.over;
                  },
                )
          ]
        ]
      ]

  -- If the daemon destroys, then in some round, up to which nothing had stopped it, a trigger fired
  -- while the switch was armed, for the reason that it reports; and in each round after that until
  -- the grace period was over, time was left, the switch was armed and nothing stopped the daemon.
  pub run_daemon-Fires :
      (p : TriggerParams) (progress : DestructionProgress) (seen : List Seen)
      → run_daemon works config seen ≡ some (destroyed p progress)
      → Fires config p seen
  unfolding run_daemon
  run_daemon-Fires p progress [] h = absurd (ground arith)
  run_daemon-Fires p progress (s ∷ rest) h = elim (Bool-cases s.stop) [
    | inl e ↦ absurd (ground arith)
    | inr e ↦ elim (Bool-cases s.armed_now) [
      | inr f ↦ later works config s rest e (run_daemon-Fires p progress rest (ground arith))
      | inl f ↦ elim (Result-kinds (check_triggers config s)) [
        | inl ends ↦
            later works config s rest e
              (run_daemon-Fires p progress rest (unfired works config s rest e f ends ∙ h))
        | inr (reason, g) ↦
            let (same, x) =
              grace-Expires reason p progress rest
                (sym (fires works config s rest reason e f g) ∙ h) in
            record {
              before = [];
              now = s;
              rest = rest;
              split = refl;
              is_armed = f;
              not_stopped = (e, tt);
              has_fired = g ∙ ap fired (sym same);
              expires = x;
            }
      ]
    ]
  ]
