-- ===== src/Policy/Engine.antt =====
-- crates/tgcryptfs-core/src/policy/types.rs and engine.rs: policies, rules, and their evaluation.
pub mod Decisions
use tgcryptfs.Policy.Glob.{Text, glob_matches}
use tgcryptfs.Common.{
  ℕ, Bool, true, false, not, Option, none, some, List, [], ◌∷◌, ◌++◌, ◌==◌, Result, ok, err, ◌>>=◌,
  ◌>>◌, findb,
}

pub data DeleteBehavior : Type 0 where
  immediate soft reject : DeleteBehavior

pub data ExpiryBehavior : Type 0 where
  purge hold : ExpiryBehavior

pub record PolicyRule : Type 0 where
  pub path_pattern : Text
  pub on_delete : DeleteBehavior
  pub record_changes : Bool
  pub mutable_ : Bool
  pub retention_secs : Option ℕ
  pub on_expiry : ExpiryBehavior

pub record MutabilityPolicy : Type 0 where
  pub policy_id : ℕ
  pub name : Text
  pub rules : List PolicyRule

pub record PolicyDecision : Type 0 where
  pub policy_id : ℕ
  pub mutable_ : Bool
  pub on_delete : DeleteBehavior
  pub record_changes : Bool
  pub retention_secs : Option ℕ

pub record PolicyEngine : Type 0 where
  pub policies : List MutabilityPolicy

pub data PolicyError : Type 0 where
  policy_not_found : ℕ → PolicyError
  no_rule_matches : Text → Text → PolicyError

unfoldable pub new_engine : PolicyEngine
new_engine = record { policies = [] }

unfoldable pub add_policy : MutabilityPolicy → PolicyEngine → PolicyEngine
add_policy policy engine = record { policies = engine.policies ++ policy ∷ [] }

unfoldable pub match_rule : MutabilityPolicy → Text → Option PolicyRule
match_rule policy path = findb (λ rule. glob_matches rule.path_pattern path) policy.rules

-- `ok_or_else`
abbrev pub ok_or : {A : Type 0} → Option A → PolicyError → Result PolicyError A
ok_or none e = err e
ok_or (some a) e = ok a

unfoldable pub evaluate : PolicyEngine → ℕ → Text → Result PolicyError PolicyDecision
evaluate engine policy_id path = do
  policy ←
      ok_or (findb (λ p. p.policy_id == policy_id) engine.policies) (policy_not_found policy_id)
  rule ← ok_or (match_rule policy path) (no_rule_matches path policy.name)
  ok (record {
    policy_id = policy_id;
    mutable_ = rule.mutable_;
    on_delete = rule.on_delete;
    record_changes = rule.record_changes;
    retention_secs = rule.retention_secs;
  })

unfoldable pub can_write : PolicyEngine → ℕ → Text → Result PolicyError Bool
can_write engine policy_id path = do decision ← evaluate engine policy_id path; ok decision.mutable_

abbrev pub is_reject : DeleteBehavior → Bool
is_reject reject = true
is_reject _ = false

unfoldable pub can_delete : PolicyEngine → ℕ → Text → Result PolicyError Bool
can_delete engine policy_id path = do
  decision ← evaluate engine policy_id path
  ok (not (is_reject decision.on_delete))
