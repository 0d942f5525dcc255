-- ===== src/Tests/Parsing.antt =====
-- The policy language on a text.
use tgcryptfs.Policy.Glob.{Text}
use tgcryptfs.Common.Dict.{nat_eq}
use tgcryptfs.Fuse.Store.{decimal}
use tgcryptfs.Policy.Engine.{soft, reject, hold, MutabilityPolicy}
use tgcryptfs.Policy.Strings.{
  is_whitespace, trim_start, trim_end, strip_prefix, strip_suffix, split_once, lines, parse_digits,
  parse_u64, at_boundary,
}
use tgcryptfs.Policy.Parser.{
  ParseError, panicked, parse_duration, parse_quoted_string, parse_on_delete, set_field, parse_line,
  parse_lines, parse_rule_body, parse_rule, rules_loop, parse_rules, policy_parts, parse_policy,
}
use tgcryptfs.Policy.Parser.Total.{parse_policy-ends}
use tgcryptfs.Policy.Parser.Durations.{parse_duration-decimal}
use tgcryptfs.Policy.Parser.Ascii.{panics}
use tgcryptfs.Policy.Parser.Calm.{is_ascii}
use tgcryptfs.Common.{
  ◌⊎◌, false, ◌*◌, ◌%◌, ◌≡◌, refl, true, false, none, some, [], ◌∷◌, ◌++◌, arith, Result, ok, err,
}

-- Two rules, the second with a value that is not a Boolean.
abbrev sample : Text
sample =
    b'p' ∷ b'o' ∷ b'l' ∷ b'i' ∷ b'c' ∷ b'y' ∷ b' ' ∷ b'"' ∷ b'p' ∷ b'"' ∷ b' ' ∷ b'{' ∷ b' ' ∷ b'r'
    ∷ b'u' ∷ b'l' ∷ b'e' ∷ b' ' ∷ b'"' ∷ b'*' ∷ b'.' ∷ b'l' ∷ b'o' ∷ b'g' ∷ b'"' ∷ b' ' ∷ b'{' ∷ 10
    ∷ b' ' ∷ b'o' ∷ b'n' ∷ b'_' ∷ b'd' ∷ b'e' ∷ b'l' ∷ b'e' ∷ b't' ∷ b'e' ∷ b' ' ∷ b'=' ∷ b' '
    ∷ b'r' ∷ b'e' ∷ b'j' ∷ b'e' ∷ b'c' ∷ b't' ∷ 10 ∷ b' ' ∷ b'r' ∷ b'e' ∷ b't' ∷ b'e' ∷ b'n' ∷ b't'
    ∷ b'i' ∷ b'o' ∷ b'n' ∷ b' ' ∷ b'=' ∷ b' ' ∷ b'2' ∷ b'd' ∷ 10 ∷ b'}' ∷ 10 ∷ b' ' ∷ b'r' ∷ b'u'
    ∷ b'l' ∷ b'e' ∷ b' ' ∷ b'"' ∷ b'*' ∷ b'*' ∷ b'"' ∷ b' ' ∷ b'{' ∷ b' ' ∷ b'm' ∷ b'u' ∷ b't'
    ∷ b'a' ∷ b'b' ∷ b'l' ∷ b'e' ∷ b' ' ∷ b'=' ∷ b' ' ∷ b'y' ∷ b'e' ∷ b's' ∷ b' ' ∷ b'}' ∷ b' '
    ∷ b'}' ∷ []

-- That value is taken for false.
parses_sample :
    parse_policy sample 7
    ≡ some (
        ok (record {
          policy_id = 7;
          name = b'p' ∷ [];
          rules =
              record {
                path_pattern = b'*' ∷ b'.' ∷ b'l' ∷ b'o' ∷ b'g' ∷ [];
                on_delete = reject;
                record_changes = true;
                mutable_ = true;
                retention_secs = some 172800;
                on_expiry = hold;
              }
              ∷ record {
                path_pattern = b'*' ∷ b'*' ∷ [];
                on_delete = soft;
                record_changes = true;
                mutable_ = false;
                retention_secs = none;
                on_expiry = hold;
              }
              ∷ [];
        }))
unfolding is_whitespace trim_start trim_end strip_prefix strip_suffix split_once lines parse_digits
    parse_u64 parse_duration parse_quoted_string parse_on_delete set_field parse_line parse_lines
    parse_rule_body parse_rule rules_loop parse_rules policy_parts parse_policy
parses_sample = refl

-- A character of two bytes from the 20th byte on.
abbrev accented : Text
accented =
    b'x' ∷ b'x' ∷ b'x' ∷ b'x' ∷ b'x' ∷ b'x' ∷ b'x' ∷ b'x' ∷ b'x' ∷ b'x' ∷ b'x' ∷ b'x' ∷ b'x' ∷ b'x'
    ∷ b'x' ∷ b'x' ∷ b'x' ∷ b'x' ∷ b'x' ∷ 233 ∷ b'y' ∷ []

message_panics : parse_rule accented ≡ err panicked
unfolding parse_rule strip_prefix at_boundary
message_panics = refl

parse_policy-ends_example :
    (r : Result ParseError MutabilityPolicy) × (parse_policy sample 7 ≡ some r)
    × ((panics r ≡ false) ⊎ (is_ascii sample ≡ false))
parse_policy-ends_example = parse_policy-ends sample 7

-- A retention of 213503982334602 days is parsed as 17 hours.
parse_duration-decimal_example :
    parse_duration (decimal 213503982334602 ++ b'd' ∷ [])
    ≡ ok (213503982334602 * 86400 % 18446744073709551616)
parse_duration-decimal_example = parse_duration-decimal 213503982334602 (omega arith)
