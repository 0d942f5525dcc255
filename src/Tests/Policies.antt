-- ===== src/Tests/Policies.antt =====
-- Patterns and policies from the source's own tests.
use tgcryptfs.Common.Dict.{list_eq, nat_eq}
use tgcryptfs.Policy.Glob.{
  Text, star, slash, double_star, split_onto, split, any_tail, match_head, glob_match_segment,
  glob_match_parts, glob_matches,
}
use tgcryptfs.Policy.Glob.Matching.{Matches, glob_match_parts_iff}
use tgcryptfs.Policy.Engine.{
  PolicyRule, MutabilityPolicy, PolicyDecision, PolicyEngine, soft, reject, hold, match_rule,
  evaluate,
}
use tgcryptfs.Policy.Engine.Decisions.{Decided, evaluate_iff-Decided}
use tgcryptfs.Common.{◌≡◌, refl, ◌↔◌, Bool, true, false, none, [], ◌∷◌, ◌++◌, if◌then◌else◌, ok}

-- "foo/*", "foo/b" and "foo/s/b"
abbrev foo : Text
foo = b'f' ∷ b'o' ∷ b'o' ∷ []

abbrev foo_star : Text
foo_star = foo ++ slash ∷ star ∷ []

abbrev foo_b : Text
foo_b = foo ++ slash ∷ b'b' ∷ []

abbrev foo_s_b : Text
foo_s_b = foo ++ slash ∷ b's' ∷ slash ∷ b'b' ∷ []

glob_matches_star :
    (glob_matches foo_star foo_b ≡ true)
    × (glob_matches foo_star foo_s_b ≡ false)
    × (glob_matches (double_star ++ slash ∷ b'b' ∷ []) foo_s_b ≡ true)
unfolding glob_matches split split_onto glob_match_parts any_tail match_head glob_match_segment
glob_matches_star = (refl, refl, refl)

glob_match_parts_iff_example :
    (glob_match_parts (foo ∷ double_star ∷ []) (foo ∷ foo ∷ []) ≡ true)
    ↔ Matches (foo ∷ double_star ∷ []) (foo ∷ foo ∷ [])
glob_match_parts_iff_example = glob_match_parts_iff (foo ∷ double_star ∷ []) (foo ∷ foo ∷ [])

abbrev rule : Text → Bool → PolicyRule
rule pat writable = record {
  path_pattern = pat;
  on_delete = if writable then soft else reject;
  record_changes = true;
  mutable_ = writable;
  retention_secs = none;
  on_expiry = hold;
}

abbrev policy : MutabilityPolicy
policy = record {
  policy_id = 1;
  name = foo;
  rules = rule foo_star false ∷ rule double_star true ∷ [];
}

abbrev engine : PolicyEngine
engine = record { policies = policy ∷ [] }

abbrev decision : PolicyDecision
decision = record {
  policy_id = 1;
  mutable_ = false;
  on_delete = reject;
  record_changes = true;
  retention_secs = none;
}

foo_b_decided : evaluate engine 1 foo_b ≡ ok decision
unfolding evaluate match_rule glob_matches split split_onto glob_match_parts any_tail match_head
    glob_match_segment
foo_b_decided = refl

evaluate_iff-Decided_example :
    (evaluate engine 1 foo_b ≡ ok decision) ↔ Decided engine 1 foo_b decision
evaluate_iff-Decided_example = evaluate_iff-Decided engine 1 foo_b decision
