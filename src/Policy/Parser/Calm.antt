-- ===== src/Policy/Parser/Calm.antt =====
-- Neither a rule nor the loop over the rules panics on ASCII characters.
use mathlib.Core.Path.{subst}
use tgcryptfs.Policy.Glob.{Text}
use tgcryptfs.Policy.Engine.{PolicyRule}
use tgcryptfs.Policy.Strings.{trim, strip_prefix, strip_suffix, split_once}
use tgcryptfs.Policy.Parser.{
  ParseError, parse_quoted_string, parse_rule, parse_rule_body, brace_open, rules_loop,
  policy_parts,
}
use tgcryptfs.Policy.Parser.Ascii.{
  IsAscii, panics, at_boundary-IsAscii, trim-IsAscii, strip_prefix-IsAscii, strip_suffix-IsAscii,
  split_once-IsAscii, parse_rule_body-calm, parse_quoted_string-calm, parse_quoted_string-IsAscii,
}
use tgcryptfs.Common.{
  ℕ, zero, suc, ◌≡◌, refl, inl, inr, Bool, true, false, ltb, ◌&&◌, some, List, [], ◌∷◌, arith,
  Bool-cases, Option-cases, Result, ok, is_empty, Result-cases,
}

rule_word : Text
rule_word = b'r' ∷ b'u' ∷ b'l' ∷ b'e' ∷ []

-- A rule is no panic, and what follows it is ASCII.
parse_rule-calm : (rest : Text) → IsAscii rest → panics (parse_rule rest) ≡ false
unfolding parse_rule rule_word
parse_rule-calm rest h = elim (Option-cases (strip_prefix rule_word rest)) [
  | inl e ↦ ground (arith, at_boundary-IsAscii 20 rest h)
  | inr (behind, e) ↦ elim (Result-cases (parse_quoted_string (trim behind))) [
    | inr (x, f) ↦ ground (arith, parse_quoted_string-calm (trim behind))
    | inl (quoted, f) ↦ elim (Option-cases (strip_prefix brace_open (trim quoted.1))) [
      | inl g ↦ ground arith
      | inr (body, g) ↦ elim (Option-cases (split_once b'}' body)) [
        | inl k ↦ ground arith
        | inr (parts, k) ↦ ground (arith, parse_rule_body-calm quoted.0 parts.0)
      ]
    ]
  ]
]

parse_rule-IsAscii :
    (rest : Text) (rule : PolicyRule) (after : Text)
    → parse_rule rest ≡ ok (rule, after)
    → IsAscii rest
    → IsAscii after
unfolding parse_rule rule_word
parse_rule-IsAscii rest rule after h a = elim (Option-cases (strip_prefix rule_word rest)) [
  | inl e ↦ absurd (ground arith)
  | inr (behind, e) ↦ elim (Result-cases (parse_quoted_string (trim behind))) [
    | inr (_, f) ↦ absurd (ground arith)
    | inl (quoted, f) ↦ elim (Option-cases (strip_prefix brace_open (trim quoted.1))) [
      | inl g ↦ absurd (ground arith)
      | inr (body, g) ↦ elim (Option-cases (split_once b'}' body)) [
        | inl k ↦ absurd (ground arith)
        | inr (parts, k) ↦ elim (Result-cases (parse_rule_body quoted.0 parts.0)) [
          | inr (_, l) ↦ absurd (ground arith)
          | inl (parsed, l) ↦
              let same : parts.1 ≡ after = ground arith in
              let after_word =
                trim-IsAscii behind (strip_prefix-IsAscii rule_word rest behind e a) in
              let after_name =
                trim-IsAscii quoted.1
                  (parse_quoted_string-IsAscii (trim behind) quoted f after_word) in
              subst IsAscii same (
                split_once-IsAscii b'}' body parts k
                  (strip_prefix-IsAscii brace_open (trim quoted.1) body g after_name))
        ]
      ]
    ]
  ]
]

pub rules_loop-calm :
    (fuel : ℕ) (rest : Text) (r : Result ParseError (List PolicyRule))
    → IsAscii rest
    → rules_loop fuel rest ≡ some r
    → panics r ≡ false
unfolding rules_loop
rules_loop-calm zero rest r a h = absurd (ground arith)
rules_loop-calm (suc fuel) rest r a h = elim (Bool-cases (is_empty (trim rest))) [
  | inl e ↦ let same : ok [] ≡ r = ground arith in subst (λ x. panics x ≡ false) same refl
  | inr e ↦
      let ascii = trim-IsAscii rest a in
      elim (Result-cases (parse_rule (trim rest))) [
        | inr (x, f) ↦ ground (arith, parse_rule-calm (trim rest) ascii)
        | inl ((rule, after), f) ↦ elim (Option-cases (rules_loop fuel after)) [
          | inl g ↦ absurd (ground arith)
          | inr (later, g) ↦
              let calm =
                rules_loop-calm fuel after later (parse_rule-IsAscii (trim rest) rule after f ascii)
                  g in
              elim (Result-cases later) [
                | inl (rules, k) ↦ ground arith
                | inr (x, k) ↦ ground arith
              ]
        ]
      ]
]

policy_word : Text
policy_word = b'p' ∷ b'o' ∷ b'l' ∷ b'i' ∷ b'c' ∷ b'y' ∷ []

pub policy_parts-calm : (input : Text) → panics (policy_parts input) ≡ false
unfolding policy_parts policy_word
policy_parts-calm input = elim (Option-cases (strip_prefix policy_word (trim input))) [
  | inl e ↦ ground arith
  | inr (behind, e) ↦ elim (Result-cases (parse_quoted_string (trim behind))) [
    | inr (x, f) ↦ ground (arith, parse_quoted_string-calm (trim behind))
    | inl (quoted, f) ↦ ground arith
  ]
]

-- What stands between the braces of an ASCII text is ASCII.
pub policy_parts-IsAscii :
    (input : Text) (parts : Text × Text)
    → policy_parts input ≡ ok parts
    → IsAscii input
    → IsAscii parts.1
unfolding policy_parts policy_word
policy_parts-IsAscii input parts h a = elim (Option-cases (strip_prefix policy_word (trim input))) [
  | inl e ↦ absurd (ground arith)
  | inr (behind, e) ↦ elim (Result-cases (parse_quoted_string (trim behind))) [
    | inr (x, f) ↦ absurd (ground arith)
    | inl (quoted, f) ↦ elim (Option-cases (strip_prefix brace_open (trim quoted.1))) [
      | inl g ↦ absurd (ground arith)
      | inr (body, g) ↦ elim (Option-cases (strip_suffix b'}' (trim body))) [
        | inl k ↦ absurd (ground arith)
        | inr (rules, k) ↦
            let same : rules ≡ parts.1 = ground arith in
            let after_word =
              trim-IsAscii behind
                (strip_prefix-IsAscii policy_word (trim input) behind e (trim-IsAscii input a)) in
            let after_name =
              trim-IsAscii quoted.1
                (parse_quoted_string-IsAscii (trim behind) quoted f after_word) in
            subst IsAscii same (
              strip_suffix-IsAscii b'}' (trim body) rules k (
                trim-IsAscii body
                  (strip_prefix-IsAscii brace_open (trim quoted.1) body g after_name)))
      ]
    ]
  ]
]

-- `is_ascii` of a text.
abbrev pub is_ascii : Text → Bool
is_ascii [] = true
is_ascii (c ∷ cs) = let rest = is_ascii cs in ltb c 128 && rest

pub is_ascii-IsAscii : (s : Text) → is_ascii s ≡ true → IsAscii s
is_ascii-IsAscii [] h = tt
is_ascii-IsAscii (c ∷ cs) h = (ground arith, is_ascii-IsAscii cs (ground arith))
