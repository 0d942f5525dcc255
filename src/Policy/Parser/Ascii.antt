-- ===== src/Policy/Parser/Ascii.antt =====
-- The parser does not panic on a text of ASCII characters.
use mathlib.Core.Path.{subst}
use tgcryptfs.Policy.Glob.{Text}
use tgcryptfs.Policy.Engine.{PolicyRule}
use tgcryptfs.Policy.Strings.{
  is_whitespace, utf8_len, trim_start, trim_end, trim, strip_prefix, strip_suffix, split_once,
  at_boundary, lines, parse_u64,
}
use tgcryptfs.Policy.Parser.{
  ParseError, panicked, seconds, parse_duration, parse_quoted_string, parse_on_delete,
  parse_on_expiry, set_field, parse_line, parse_lines, parse_rule_body, new_rule,
}
use tgcryptfs.Common.{
  ℕ, ◌-◌, ◌<◌, ◌≡◌, refl, inl, inr, Bool, true, false, not, Option, none, some, List, [], ◌∷◌,
  arith, ◌==◌, if◌then◌else◌, Bool-cases, Option-cases, Result, ok, err, is_empty, Result-cases,
  All, ◌&&◌,
}

abbrev pub IsAscii : Text → Type 0
IsAscii s = All (λ c. c < 128) s

-- The result is the panic.
abbrev pub panics : {A : Type 0} → Result ParseError A → Bool
panics (ok a) = false
panics (err panicked) = true
panics (err _) = false

pub at_boundary-IsAscii : (n : ℕ) (s : Text) → IsAscii s → at_boundary n s ≡ true
unfolding at_boundary
at_boundary-IsAscii n [] h = refl
at_boundary-IsAscii n (c ∷ cs) (a, h) = ground (arith, a, at_boundary-IsAscii (n - utf8_len c) cs h)

trim_start-IsAscii : (s : Text) → IsAscii s → IsAscii (trim_start s)
unfolding trim_start
trim_start-IsAscii [] h = tt
trim_start-IsAscii (c ∷ cs) (a, h) = elim (Bool-cases (is_whitespace c)) [
  | inl e ↦ rw e (trim_start-IsAscii cs h)
  | inr e ↦ rw e (a, h)
]

trim_end-IsAscii : (s : Text) → IsAscii s → IsAscii (trim_end s)
unfolding trim_end
trim_end-IsAscii [] h = tt
trim_end-IsAscii (c ∷ cs) (a, h) = elim (Bool-cases (is_empty (trim_end cs) && is_whitespace c)) [
  | inl e ↦ rw (trim_end, e) tt
  | inr e ↦ rw (trim_end, e) (a, trim_end-IsAscii cs h)
]

pub trim-IsAscii : (s : Text) → IsAscii s → IsAscii (trim s)
trim-IsAscii s h = trim_end-IsAscii (trim_start s) (trim_start-IsAscii s h)

pub strip_prefix-IsAscii :
    (p s rest : Text) → strip_prefix p s ≡ some rest → IsAscii s → IsAscii rest
unfolding strip_prefix
strip_prefix-IsAscii [] s rest e h = let same : s ≡ rest = ground arith in subst IsAscii same h
strip_prefix-IsAscii (p ∷ ps) [] rest e h = absurd (ground arith)
strip_prefix-IsAscii (p ∷ ps) (c ∷ cs) rest e (a, h) = elim (Bool-cases (c == p)) [
  | inl f ↦ strip_prefix-IsAscii ps cs rest (ground arith) h
  | inr f ↦ absurd (ground arith)
]

pub strip_suffix-IsAscii :
    (p : ℕ) (s rest : Text) → strip_suffix p s ≡ some rest → IsAscii s → IsAscii rest
unfolding strip_suffix
strip_suffix-IsAscii p [] rest e h = absurd (ground arith)
strip_suffix-IsAscii p (c ∷ []) rest e h = elim (Bool-cases (c == p)) [
  | inl f ↦ let same : [] ≡ rest = ground arith in subst IsAscii same tt
  | inr f ↦ absurd (ground arith)
]
strip_suffix-IsAscii p (c ∷ d ∷ cs) rest e (a, h) = elim (Option-cases (strip_suffix p (d ∷ cs))) [
  | inl f ↦ absurd (ground arith)
  | inr (found, f) ↦
      let same : c ∷ found ≡ rest = ground arith in
      subst IsAscii same (a, strip_suffix-IsAscii p (d ∷ cs) found f h)
]

pub split_once-IsAscii :
    (p : ℕ) (s : Text) (parts : Text × Text)
    → split_once p s ≡ some parts
    → IsAscii s
    → IsAscii parts.1
unfolding split_once
split_once-IsAscii p [] parts e h = absurd (ground arith)
split_once-IsAscii p (c ∷ cs) parts e (a, h) = elim (Bool-cases (c == p)) [
  | inl f ↦ let same : cs ≡ parts.1 = ground arith in subst IsAscii same h
  | inr f ↦ elim (Option-cases (split_once p cs)) [
    | inl g ↦ absurd (ground arith)
    | inr (found, g) ↦
        let same : found.1 ≡ parts.1 = ground arith in
        subst IsAscii same (split_once-IsAscii p cs found g h)
  ]
]

seconds-calm : (unit : ℕ) (n : Option ℕ) → panics (seconds unit n) ≡ false
seconds-calm unit none = refl
seconds-calm unit (some n) = refl

parse_duration-calm : (s : Text) → panics (parse_duration s) ≡ false
unfolding parse_duration
parse_duration-calm s = elim (Option-cases (strip_suffix b'd' (trim s))) [
  | inr (x, e) ↦ rw (e, parse_duration) (seconds-calm 86400 (parse_u64 x))
  | inl e ↦ elim (Option-cases (strip_suffix b'h' (trim s))) [
    | inr (x, f) ↦ rw (e, f, parse_duration) (seconds-calm 3600 (parse_u64 x))
    | inl f ↦ elim (Option-cases (strip_suffix b's' (trim s))) [
      | inr (x, g) ↦ rw (e, f, g, parse_duration) (seconds-calm 1 (parse_u64 x))
      | inl g ↦ rw (e, f, g, parse_duration) (seconds-calm 1 (parse_u64 (trim s)))
    ]
  ]
]

set_field-calm : (key value : Text) (rule : PolicyRule) → panics (set_field key value rule) ≡ false
unfolding set_field parse_on_delete parse_on_expiry
set_field-calm key value rule = ground (arith, parse_duration-calm value)

parse_line-calm : (line : Text) (rule : PolicyRule) → panics (parse_line line rule) ≡ false
unfolding parse_line
parse_line-calm line rule = elim (Bool-cases (is_empty (trim line))) [
  | inl e ↦ rw (e, parse_line) refl
  | inr e ↦ elim (Option-cases (split_once b'=' (trim line))) [
    | inl f ↦ rw (e, f, parse_line) refl
    | inr (parts, f) ↦ rw (e, f, parse_line) (set_field-calm (trim parts.0) (trim parts.1) rule)
  ]
]

parse_lines-calm : (ls : List Text) (rule : PolicyRule) → panics (parse_lines ls rule) ≡ false
unfolding parse_lines
parse_lines-calm [] rule = refl
parse_lines-calm (line ∷ rest) rule = elim (Result-cases (parse_line line rule)) [
  | inl (next, e) ↦ rw (e, parse_lines) (parse_lines-calm rest next)
  | inr (x, e) ↦ ground (arith, parse_line-calm line rule)
]

pub parse_rule_body-calm : (pattern body : Text) → panics (parse_rule_body pattern body) ≡ false
unfolding parse_rule_body
parse_rule_body-calm pattern body = parse_lines-calm (lines body) (new_rule pattern)

-- A quoted string is no panic, and what is behind it is ASCII.
pub parse_quoted_string-calm : (s : Text) → panics (parse_quoted_string s) ≡ false
unfolding parse_quoted_string
parse_quoted_string-calm s = go (trim s)
  where
    go :
        (t : Text)
        → panics (elim t as (λ x. Result ParseError (Text × Text)) [
          | [] ↦ err ParseError.expected_string
          | c ∷ cs ↦
              if not (c == b'"')
              then err ParseError.expected_string
              else elim (split_once b'"' cs) [
                | none ↦ err ParseError.unterminated
                | some found ↦ ok found
              ]
        ])
          ≡ false
    go [] = refl
    go (c ∷ cs) = ground arith

pub parse_quoted_string-IsAscii :
    (s : Text) (parts : Text × Text)
    → parse_quoted_string s ≡ ok parts
    → IsAscii s
    → IsAscii parts.1
unfolding parse_quoted_string
parse_quoted_string-IsAscii s parts e h = go (trim s) (trim-IsAscii s h) e
  where
    go :
        (t : Text)
        → IsAscii t
        → (elim t as (λ x. Result ParseError (Text × Text)) [
          | [] ↦ err ParseError.expected_string
          | c ∷ cs ↦
              if not (c == b'"')
              then err ParseError.expected_string
              else elim (split_once b'"' cs) [
                | none ↦ err ParseError.unterminated
                | some found ↦ ok found
              ]
        ])
          ≡ ok parts
        → IsAscii parts.1
    go [] a k = absurd (ground arith)
    go (c ∷ cs) a k = elim (Bool-cases (c == b'"')) [
      | inr f ↦ absurd (ground arith)
      | inl f ↦ elim (Option-cases (split_once b'"' cs)) [
        | inl g ↦ absurd (ground arith)
        | inr (found, g) ↦
            let same : found ≡ parts = ground arith in
            subst (λ (x : Text × Text). IsAscii x.1) same (split_once-IsAscii b'"' cs found g a.1)
      ]
    ]
