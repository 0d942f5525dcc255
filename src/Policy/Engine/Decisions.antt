-- ===== src/Policy/Engine/Decisions.antt =====
-- What the policy engine decides: the first policy with the id, and its first rule that matches.
use mathlib.Core.Path.{subst}
use tgcryptfs.Policy.Glob.{Text, glob_matches}
use tgcryptfs.Policy.Engine.{
  PolicyRule, MutabilityPolicy, PolicyDecision, PolicyEngine, DeleteBehavior, immediate, soft,
  is_reject, reject, add_policy, match_rule, evaluate, can_write, can_delete,
}
use tgcryptfs.Common.{
  Result-cases, ℕ, ◌≡◌, refl, sym, ap, ◌≢◌, ◌↔◌, inl, inr, Bool, true, false, not, some, List, [],
  ◌∷◌, ◌++◌, arith, ◌==◌, Bool-cases, Option-cases, ok, findb, All,
}

-- `x` is the first element of `xs` that passes the test.
pub record IsFirst {ℓ} {A : Type ℓ} (p : A → Bool) (xs : List A) (x : A) : Type ℓ where
  pub before : List A
  pub after : List A
  pub split : xs ≡ before ++ x ∷ after
  pub passed : All {ℓ, 0} (λ y. p y ≡ false) before
  pub hit : p x ≡ true

findb-IsFirst {ℓ} :
    {A : Type ℓ} (p : A → Bool) (xs : List A) (x : A) → findb p xs ≡ some x → IsFirst p xs x
findb-IsFirst p [] x h = absurd (ground arith)
findb-IsFirst p (y ∷ ys) x h = elim (Bool-cases (p y)) [
  | inl now ↦ record {
    before = [];
    after = ys;
    split = ground arith;
    passed = tt;
    hit = ground arith;
  }
  | inr later ↦
      let r = findb-IsFirst p ys x (ground arith) in
      record {
        before = y ∷ r.before;
        after = r.after;
        split = ap (◌∷◌ y) r.split;
        passed = (later, r.passed);
        hit = r.hit;
      }
]

IsFirst-findb {ℓ} :
    {A : Type ℓ} (p : A → Bool) (xs : List A) (x : A) → IsFirst p xs x → findb p xs ≡ some x
IsFirst-findb {A} p xs x r = subst (λ ys. findb p ys ≡ some x) (sym r.split) (go r.before r.passed)
  where
    go :
        (before : List A) → All (λ y. p y ≡ false) before → findb p (before ++ x ∷ r.after) ≡ some x
    go [] t = ground (arith, r.hit)
    go (y ∷ before) (miss, t) = ground (arith, go before t)

abbrev has_id : ℕ → MutabilityPolicy → Bool
has_id policy_id p = p.policy_id == policy_id

abbrev matches_path : Text → PolicyRule → Bool
matches_path path rule = glob_matches rule.path_pattern path

abbrev decision_of : ℕ → PolicyRule → PolicyDecision
decision_of policy_id rule = record {
  policy_id = policy_id;
  mutable_ = rule.mutable_;
  on_delete = rule.on_delete;
  record_changes = rule.record_changes;
  retention_secs = rule.retention_secs;
}

-- The decision comes from the first policy with the id and its first rule for the path.
pub record Decided (engine : PolicyEngine) (policy_id : ℕ) (path : Text) (d : PolicyDecision)
    : Type 0 where
  pub policy : MutabilityPolicy
  pub rule : PolicyRule
  pub first_policy : IsFirst (has_id policy_id) engine.policies policy
  pub first_rule : IsFirst (matches_path path) policy.rules rule
  pub taken : d ≡ decision_of policy_id rule

-- `evaluate` returns a decision exactly when it is that of the first rule matching the path, in the
-- first policy with the id: no earlier policy has the id, and no earlier rule of it matches.
pub evaluate_iff-Decided :
    (engine : PolicyEngine) (policy_id : ℕ) (path : Text) (d : PolicyDecision)
    → (evaluate engine policy_id path ≡ ok d) ↔ Decided engine policy_id path d
unfolding evaluate match_rule
evaluate_iff-Decided engine policy_id path d = (to, back)
  where
    to : evaluate engine policy_id path ≡ ok d → Decided engine policy_id path d
    to h = elim (Option-cases (findb (has_id policy_id) engine.policies)) [
      | inl none_there ↦ absurd (ground arith)
      | inr (policy, found) ↦ elim (Option-cases (findb (matches_path path) policy.rules)) [
        | inl no_rule ↦ absurd (ground arith)
        | inr (rule, hit) ↦ record {
          policy = policy;
          rule = rule;
          first_policy = findb-IsFirst (has_id policy_id) engine.policies policy found;
          first_rule = findb-IsFirst (matches_path path) policy.rules rule hit;
          taken = ground arith;
        }
      ]
    ]

    back : Decided engine policy_id path d → evaluate engine policy_id path ≡ ok d
    back r = ground (
      arith,
      IsFirst-findb (has_id policy_id) engine.policies r.policy r.first_policy,
      IsFirst-findb (matches_path path) r.policy.rules r.rule r.first_rule,
      r.taken,
    )

findb-append {ℓ} :
    {A : Type ℓ} (p : A → Bool) (xs : List A) (y x : A)
    → findb p xs ≡ some x
    → findb p (xs ++ y ∷ []) ≡ some x
findb-append p [] y x h = absurd (ground arith)
findb-append p (z ∷ xs) y x h = ground (arith, findb-append p xs y x)

-- A policy that is added does not change what an id decides that had a decision before.
evaluate-add_policy :
    (engine : PolicyEngine) (policy : MutabilityPolicy) (policy_id : ℕ) (path : Text)
    (d : PolicyDecision)
    → evaluate engine policy_id path ≡ ok d
    → evaluate (add_policy policy engine) policy_id path ≡ ok d
unfolding evaluate add_policy match_rule
evaluate-add_policy engine policy policy_id path d h =
    elim (Option-cases (findb (has_id policy_id) engine.policies)) [
      | inl none_there ↦ absurd (ground arith)
      | inr (p, found) ↦
          ground (arith, findb-append (has_id policy_id) engine.policies policy p found)
    ]

-- `can_write` and `can_delete` answer true exactly when there is a decision that makes the path
-- mutable, and one whose behaviour on delete is not `Reject`.
can_write-can_delete_iff :
    (engine : PolicyEngine) (policy_id : ℕ) (path : Text)
    → ((can_write engine policy_id path ≡ ok true)
        ↔ ((d : PolicyDecision) × Decided engine policy_id path d × (d.mutable_ ≡ true)))
      × ((can_delete engine policy_id path ≡ ok true)
          ↔ ((d : PolicyDecision) × Decided engine policy_id path d × (d.on_delete ≢ reject)))
unfolding can_write can_delete
can_write-can_delete_iff engine policy_id path =
    elim (Result-cases (evaluate engine policy_id path)) [
      | inr (e, failed) ↦ (
        (λ h. absurd (ground arith), λ (d, made, _). absurd (ground (arith, (decided d).1 made))),
        (λ h. absurd (ground arith), λ (d, made, _). absurd (ground (arith, (decided d).1 made))),
      )
      | inl (d, made) ↦ (
        (
          λ h. (d, (decided d).0 made, ground arith),
          λ (d', made', m). ground (arith, (decided d').1 made', m),
        ),
        (
          λ h. (d, (decided d).0 made, λ e. absurd (ground arith)),
          λ (d', made', m). accepted d' ((decided d').1 made') m,
        ),
      )
    ]
  where
    decided :
        (d : PolicyDecision)
        → (evaluate engine policy_id path ≡ ok d) ↔ Decided engine policy_id path d
    decided d = evaluate_iff-Decided engine policy_id path d

    keeps : (b : DeleteBehavior) → b ≢ reject → not (is_reject b) ≡ true
    keeps immediate h = refl
    keeps soft h = refl
    keeps reject h = absurd (h refl)

    accepted :
        (d : PolicyDecision)
        → evaluate engine policy_id path ≡ ok d
        → d.on_delete ≢ reject
        → can_delete engine policy_id path ≡ ok true
    accepted d e h = rw (can_delete, e) (ap ok (keeps d.on_delete h))
