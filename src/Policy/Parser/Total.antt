-- ===== src/Policy/Parser/Total.antt =====
-- The loop over the rules ends, and on ASCII without a panic.
use tgcryptfs.Policy.Glob.{Text}
use tgcryptfs.Policy.Engine.{PolicyRule, MutabilityPolicy}
use tgcryptfs.Policy.Strings.{trim_start, trim_end, trim, strip_prefix, split_once}
use tgcryptfs.Policy.Parser.{
  ParseError, parse_quoted_string, parse_rule, parse_rule_body, brace_open, rules_loop, parse_rules,
  named, policy_parts, parse_policy,
}
use tgcryptfs.Policy.Parser.Ascii.{panics, trim-IsAscii}
use tgcryptfs.Policy.Parser.Calm.{
  rules_loop-calm, policy_parts-calm, policy_parts-IsAscii, is_ascii, is_ascii-IsAscii,
}
use tgcryptfs.Common.{
  ◌⊎◌, false, ℕ, zero, suc, ◌+◌, ◌≤◌, ◌<◌, ◌≡◌, refl, ap, inl, inr, not, none, some, List, [], ◌∷◌,
  arith, ◌==◌, if◌then◌else◌, Bool-cases, Option-cases, Result, ok, err, length, is_empty,
  Result-cases,
}

length-trim_start : (s : Text) → length (trim_start s) ≤ length s
unfolding trim_start
length-trim_start [] = omega arith
length-trim_start (c ∷ cs) = ground (arith, length-trim_start cs)

length-trim_end : (s : Text) → length (trim_end s) ≤ length s
unfolding trim_end
length-trim_end [] = omega arith
length-trim_end (c ∷ cs) = ground (arith, length-trim_end cs)

length-trim : (s : Text) → length (trim s) ≤ length s
length-trim s = omega (arith, length-trim_end (trim_start s), length-trim_start s)

length-strip_prefix :
    (p s rest : Text) → strip_prefix p s ≡ some rest → length p + length rest ≡ length s
unfolding strip_prefix
length-strip_prefix [] s rest h = let e : s ≡ rest = ground arith in omega (arith, ap length e)
length-strip_prefix (p ∷ ps) [] rest h = absurd (ground arith)
length-strip_prefix (p ∷ ps) (c ∷ cs) rest h = elim (Bool-cases (c == p)) [
  | inl e ↦
      let there : strip_prefix ps cs ≡ some rest = ground arith in
      omega (arith, length-strip_prefix ps cs rest there)
  | inr e ↦ absurd (ground arith)
]

length-split_once :
    (p : ℕ) (s : Text) (parts : Text × Text)
    → split_once p s ≡ some parts
    → length parts.1 < length s
unfolding split_once
length-split_once p [] parts h = absurd (ground arith)
length-split_once p (c ∷ cs) parts h = elim (Bool-cases (c == p)) [
  | inl e ↦ let same : cs ≡ parts.1 = ground arith in omega (arith, ap length same)
  | inr e ↦ elim (Option-cases (split_once p cs)) [
    | inl f ↦ absurd (ground arith)
    | inr (found, f) ↦
        let same : found.1 ≡ parts.1 = ground arith in
        omega (arith, ap length same, length-split_once p cs found f)
  ]
]

length-parse_quoted_string :
    (input : Text) (parts : Text × Text)
    → parse_quoted_string input ≡ ok parts
    → length parts.1 ≤ length input
unfolding parse_quoted_string
length-parse_quoted_string input parts h = go (trim input) (length-trim input) h
  where
    go :
        (t : Text)
        → length t ≤ length input
        → (elim t as (λ x. Result ParseError (Text × Text)) [
          | [] ↦ err ParseError.expected_string
          | c ∷ cs ↦
              if not (c == b'"')
              then err ParseError.expected_string
              else elim (split_once b'"' cs) [
                | none ↦ err ParseError.unterminated
                | some found ↦ ok found
              ]
        ])
          ≡ ok parts
        → length parts.1 ≤ length input
    go [] le e = absurd (ground arith)
    go (c ∷ cs) le e = elim (Bool-cases (c == b'"')) [
      | inr f ↦ absurd (ground arith)
      | inl f ↦ elim (Option-cases (split_once b'"' cs)) [
        | inl g ↦ absurd (ground arith)
        | inr (found, g) ↦
            let same : found ≡ parts = ground arith in
            omega (
              arith,
              le,
              ap (λ (x : Text × Text). length x.1) same,
              length-split_once b'"' cs found g,
            )
      ]
    ]

-- What is left after a rule is shorter.
length-parse_rule :
    (rest : Text) (rule : PolicyRule) (after : Text)
    → parse_rule rest ≡ ok (rule, after)
    → length after < length rest
unfolding parse_rule
length-parse_rule rest rule after h =
    elim (Option-cases (strip_prefix (b'r' ∷ b'u' ∷ b'l' ∷ b'e' ∷ []) rest)) [
      | inl e ↦ absurd (ground arith)
      | inr (behind, e) ↦ elim (Result-cases (parse_quoted_string (trim behind))) [
        | inr (_, f) ↦ absurd (ground arith)
        | inl (quoted, f) ↦ elim (Option-cases (strip_prefix brace_open (trim quoted.1))) [
          | inl g ↦ absurd (ground arith)
          | inr (body, g) ↦ elim (Option-cases (split_once b'}' body)) [
            | inl k ↦ absurd (ground arith)
            | inr (parts, k) ↦ elim (Result-cases (parse_rule_body quoted.0 parts.0)) [
              | inr (_, l) ↦ absurd (ground arith)
              | inl (parsed, l) ↦
                  let same : parts.1 ≡ after = ground arith in
                  omega (
                    arith,
                    ap length same,
                    length-split_once b'}' body parts k,
                    length-strip_prefix brace_open (trim quoted.1) body g,
                    length-trim quoted.1,
                    length-parse_quoted_string (trim behind) quoted f,
                    length-trim behind,
                    length-strip_prefix (b'r' ∷ b'u' ∷ b'l' ∷ b'e' ∷ []) rest behind e,
                  )
            ]
          ]
        ]
      ]
    ]

rules_loop-ends :
    (fuel : ℕ) (rest : Text)
    → length rest < fuel
    → (r : Result ParseError (List PolicyRule)) × (rules_loop fuel rest ≡ some r)
unfolding rules_loop
rules_loop-ends zero rest enough = absurd (omega arith)
rules_loop-ends (suc fuel) rest enough = elim (Bool-cases (is_empty (trim rest))) [
  | inl e ↦ (ok [], rw (e, rules_loop) refl)
  | inr e ↦ elim (Result-cases (parse_rule (trim rest))) [
    | inr (error, f) ↦ (err error, ground arith)
    | inl ((rule, after), f) ↦
        let shorter = length-parse_rule (trim rest) rule after f in
        let (r, later) = rules_loop-ends fuel after (omega (arith, shorter, length-trim rest)) in
        elim (Result-cases r) [
          | inl (rules, g) ↦ (ok (rule ∷ rules), ground arith)
          | inr (error, g) ↦ (err error, ground arith)
        ]
  ]
]

named-calm :
    (policy_id : ℕ) (name : Text) (r : Result ParseError (List PolicyRule))
    → panics r ≡ false
    → panics (named policy_id name r) ≡ false
named-calm policy_id name (ok rules) h = refl
named-calm policy_id name (err x) h = ground arith

-- For every text `parse_policy` comes to an end, since the fuel of the loop over the rules is enough.
-- The end is a policy or an error; only on a text that is not all ASCII can it be a panic, that of the
-- message which cuts the text inside a character.
pub parse_policy-ends :
    (input : Text) (policy_id : ℕ)
    → (r : Result ParseError MutabilityPolicy) × (parse_policy input policy_id ≡ some r)
      × ((panics r ≡ false) ⊎ (is_ascii input ≡ false))
unfolding parse_policy parse_rules
parse_policy-ends input policy_id = elim (Result-cases (policy_parts input)) [
  | inr (error, e) ↦
      (err error, rw (e, parse_policy) refl, inl (ground (arith, policy_parts-calm input)))
  | inl ((name, rules), e) ↦
      let (r, ends) =
        rules_loop-ends (length rules + 1) (trim rules) (omega (arith, length-trim rules)) in
      (
        named policy_id name r,
        rw (e, ends, parse_policy) refl,
        elim (Bool-cases (is_ascii input)) [
          | inr other ↦ inr other
          | inl ascii ↦
              let inside =
                policy_parts-IsAscii input (name, rules) e (is_ascii-IsAscii input ascii) in
              inl (
                named-calm policy_id name r (
                  rules_loop-calm (length rules + 1) (trim rules) r (trim-IsAscii rules inside)
                    ends))
        ],
      )
]
