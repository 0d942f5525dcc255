-- ===== src/Policy/Parser.antt =====
-- crates/tgcryptfs-core/src/policy/parser.rs. A text is the list of its characters as Unicode
-- numbers; the methods of `str` are in Strings. The loop over the rules is on fuel.
pub mod Ascii
pub mod Calm
pub mod Total
pub mod Durations
use tgcryptfs.Common.Dict.{list_beq, nat_eq}
use tgcryptfs.Policy.Glob.{Text}
use tgcryptfs.Policy.Strings.{
  map_option, is_whitespace, trim_start, trim_end, trim, strip_prefix, strip_suffix, split_once,
  lines, parse_digits, parse_u64, at_boundary,
}
use tgcryptfs.Policy.Engine.{
  DeleteBehavior, immediate, soft, reject, ExpiryBehavior, purge, hold, PolicyRule,
  MutabilityPolicy,
}
use tgcryptfs.Common.{
  ℕ, zero, suc, ◌+◌, ◌*◌, ◌%◌, Bool, true, false, not, Option, none, some, List, [], ◌∷◌, ◌==◌,
  if◌then◌else◌, u64_mod, Result, ok, err, ◌>>=◌, ◌>>◌, length, is_empty,
}

-- The messages of `CoreError::Policy`; `panicked`: a slice that ends inside of a character.
pub data ParseError : Type 0 where
  expected_policy expected_open expected_close expected_string unterminated expected_rule :
      ParseError
  invalid_line invalid_on_delete invalid_on_expiry unknown_key invalid_duration panicked :
      ParseError

abbrev pub seconds : ℕ → Option ℕ → Result ParseError ℕ
seconds unit none = err invalid_duration
seconds unit (some n) = ok (n * unit % u64_mod)

-- The product wraps.
unfoldable pub parse_duration : Text → Result ParseError ℕ
parse_duration s =
    let t = trim s in
    elim (strip_suffix b'd' t) [
      | some days ↦ seconds 86400 (parse_u64 days)
      | none ↦ elim (strip_suffix b'h' t) [
        | some hours ↦ seconds 3600 (parse_u64 hours)
        | none ↦ elim (strip_suffix b's' t) [
          | some secs ↦ seconds 1 (parse_u64 secs)
          | none ↦ seconds 1 (parse_u64 t)
        ]
      ]
    ]

-- The rest behind the string.
unfoldable pub parse_quoted_string : Text → Result ParseError (Text × Text)
parse_quoted_string input = elim (trim input) [
  | [] ↦ err expected_string
  | c ∷ cs ↦
      if not (c == b'"')
      then err expected_string
      else elim (split_once b'"' cs) [ none ↦ err unterminated | some parts ↦ ok parts ]
]

abbrev pub new_rule : Text → PolicyRule
new_rule pattern = record {
  path_pattern = pattern;
  on_delete = soft;
  record_changes = true;
  mutable_ = true;
  retention_secs = none;
  on_expiry = hold;
}

abbrev pub is_true : Text → Bool
is_true value = list_beq value (b't' ∷ b'r' ∷ b'u' ∷ b'e' ∷ [])

unfoldable pub parse_on_delete : Text → Result ParseError DeleteBehavior
parse_on_delete value =
    if list_beq value (b'i' ∷ b'm' ∷ b'm' ∷ b'e' ∷ b'd' ∷ b'i' ∷ b'a' ∷ b't' ∷ b'e' ∷ [])
    then ok immediate
    else if list_beq value (b's' ∷ b'o' ∷ b'f' ∷ b't' ∷ [])
    then ok soft
    else if list_beq value (b'r' ∷ b'e' ∷ b'j' ∷ b'e' ∷ b'c' ∷ b't' ∷ [])
    then ok reject
    else err invalid_on_delete

unfoldable pub parse_on_expiry : Text → Result ParseError ExpiryBehavior
parse_on_expiry value =
    if list_beq value (b'p' ∷ b'u' ∷ b'r' ∷ b'g' ∷ b'e' ∷ [])
    then ok purge
    else if list_beq value (b'h' ∷ b'o' ∷ b'l' ∷ b'd' ∷ [])
    then ok hold
    else err invalid_on_expiry

-- The `match` on the key of a line.
unfoldable pub set_field : Text → Text → PolicyRule → Result ParseError PolicyRule
set_field key value rule =
    if list_beq key (b'm' ∷ b'u' ∷ b't' ∷ b'a' ∷ b'b' ∷ b'l' ∷ b'e' ∷ [])
    then ok (record rule { mutable_ = is_true value })
    else if list_beq key (b'o' ∷ b'n' ∷ b'_' ∷ b'd' ∷ b'e' ∷ b'l' ∷ b'e' ∷ b't' ∷ b'e' ∷ [])
    then (do on_delete ← parse_on_delete value; ok (record rule { on_delete = on_delete }))
    else if list_beq key (
        b'r' ∷ b'e' ∷ b'c' ∷ b'o' ∷ b'r' ∷ b'd' ∷ b'_' ∷ b'c' ∷ b'h' ∷ b'a' ∷ b'n' ∷ b'g' ∷ b'e'
        ∷ b's' ∷ [])
    then ok (record rule { record_changes = is_true value })
    else if list_beq key (b'r' ∷ b'e' ∷ b't' ∷ b'e' ∷ b'n' ∷ b't' ∷ b'i' ∷ b'o' ∷ b'n' ∷ [])
    then (do secs ← parse_duration value; ok (record rule { retention_secs = some secs }))
    else if list_beq key (b'o' ∷ b'n' ∷ b'_' ∷ b'e' ∷ b'x' ∷ b'p' ∷ b'i' ∷ b'r' ∷ b'y' ∷ [])
    then (do on_expiry ← parse_on_expiry value; ok (record rule { on_expiry = on_expiry }))
    else err unknown_key

-- One line of a rule.
unfoldable pub parse_line : Text → PolicyRule → Result ParseError PolicyRule
parse_line line rule =
    let trimmed = trim line in
    if is_empty trimmed then ok rule else elim (split_once b'=' trimmed) [
      | none ↦ err invalid_line
      | some parts ↦ set_field (trim parts.0) (trim parts.1) rule
    ]

unfoldable pub parse_lines : List Text → PolicyRule → Result ParseError PolicyRule
parse_lines [] rule = ok rule
parse_lines (line ∷ rest) rule = do next ← parse_line line rule; parse_lines rest next

unfoldable pub parse_rule_body : Text → Text → Result ParseError PolicyRule
parse_rule_body pattern body = parse_lines (lines body) (new_rule pattern)

-- `&rest[..rest.len().min(20)]` in the message.
abbrev pub no_rule : Text → ParseError
no_rule rest = if at_boundary 20 rest then expected_rule else panicked

abbrev pub brace_open : Text
brace_open = b'{' ∷ []

-- One round of the loop, for a text that is trimmed and not empty: the rule, and what follows it.
unfoldable pub parse_rule : Text → Result ParseError (PolicyRule × Text)
parse_rule rest = elim (strip_prefix (b'r' ∷ b'u' ∷ b'l' ∷ b'e' ∷ []) rest) [
  | none ↦ err (no_rule rest)
  | some after_rule ↦ do
    quoted ← parse_quoted_string (trim after_rule)
    elim (strip_prefix brace_open (trim quoted.1)) [
      | none ↦ err expected_open
      | some after_brace ↦ elim (split_once b'}' after_brace) [
        | none ↦ err expected_close
        | some parts ↦ do rule ← parse_rule_body quoted.0 parts.0; ok (rule, parts.1)
      ]
    ]
]

abbrev pub add_rule :
    PolicyRule
    → Option (Result ParseError (List PolicyRule))
    → Option (Result ParseError (List PolicyRule))
add_rule rule none = none
add_rule rule (some (err e)) = some (err e)
add_rule rule (some (ok rules)) = some (ok (rule ∷ rules))

unfoldable pub rules_loop : ℕ → Text → Option (Result ParseError (List PolicyRule))
rules_loop zero rest = none
rules_loop (suc fuel) rest =
    let trimmed = trim rest in
    elim (is_empty trimmed) [
      | true ↦ some (ok [])
      | false ↦ elim (parse_rule trimmed) [
        | err e ↦ some (err e)
        | ok (rule, after) ↦ add_rule rule (rules_loop fuel after)
      ]
    ]

-- A round takes a character at least.
unfoldable pub parse_rules : Text → Option (Result ParseError (List PolicyRule))
parse_rules input = rules_loop (length input + 1) (trim input)

abbrev pub named :
    ℕ → Text → Result ParseError (List PolicyRule) → Result ParseError MutabilityPolicy
named policy_id name rules = do
  found ← rules
  ok (record { policy_id = policy_id; name = name; rules = found })

-- What stands between the name of the policy and its last brace.
unfoldable pub policy_parts : Text → Result ParseError (Text × Text)
policy_parts input =
    elim (strip_prefix (b'p' ∷ b'o' ∷ b'l' ∷ b'i' ∷ b'c' ∷ b'y' ∷ []) (trim input)) [
      | none ↦ err expected_policy
      | some after_policy ↦ do
        quoted ← parse_quoted_string (trim after_policy)
        elim (strip_prefix brace_open (trim quoted.1)) [
          | none ↦ err expected_open
          | some after_brace ↦ elim (strip_suffix b'}' (trim after_brace)) [
            | none ↦ err expected_close
            | some rules ↦ ok (quoted.0, rules)
          ]
        ]
    ]

unfoldable pub parse_policy : Text → ℕ → Option (Result ParseError MutabilityPolicy)
parse_policy input policy_id = elim (policy_parts input) [
  | err e ↦ some (err e)
  | ok (name, rules) ↦ map_option (named policy_id name) (parse_rules rules)
]
