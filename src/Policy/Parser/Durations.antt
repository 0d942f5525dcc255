-- ===== src/Policy/Parser/Durations.antt =====
-- A duration that is written in decimal.
use tgcryptfs.Policy.Glob.{Text}
use tgcryptfs.Fuse.Store.{digits, decimal}
use tgcryptfs.Policy.Strings.{
  is_whitespace, trim_start, trim_end, strip_suffix, parse_digits, parse_u64,
}
use tgcryptfs.Policy.Parser.{seconds, parse_duration}
use tgcryptfs.Common.{
  ℕ, zero, suc, ◌+◌, ◌-◌, ◌*◌, ◌/◌, ◌%◌, ◌≤◌, ◌<◌, ◌≡◌, refl, ap, ◌∙◌, inl, inr, false, some, [],
  ◌∷◌, ◌++◌, arith, ltb, ltb→lt, ==_iff, Bool-cases, u64_mod, ok, is_empty,
}

abbrev IsDigit : ℕ → Type 0
IsDigit c = (48 ≤ c) × (c ≤ 57)

abbrev StartsDigit : Text → Type 0
StartsDigit [] = 1 ≤ 0
StartsDigit (c ∷ cs) = IsDigit c

digits-StartsDigit : (fuel n : ℕ) (acc : Text) → StartsDigit acc → StartsDigit (digits fuel n acc)
unfolding digits
digits-StartsDigit zero n acc h = h
digits-StartsDigit (suc fuel) n acc h = elim (Bool-cases (ltb n 10)) [
  | inl e ↦ rw (e, digits) (omega arith, ground arith)
  | inr e ↦
      rw (e, digits)
        (digits-StartsDigit fuel (n / 10) ((48 + n % 10) ∷ acc) (omega arith, omega arith))
]

abbrev ten_to : ℕ → ℕ
ten_to zero = 1
ten_to (suc n) = ten_to n * 10

-- One more digit.
parse_digit :
    (m d : ℕ) (acc : Text)
    → d < 10
    → m * 10 + d < u64_mod
    → parse_digits m ((48 + d) ∷ acc) ≡ parse_digits (m * 10 + d) acc
unfolding parse_digits
parse_digit m d acc small fits =
    let value : m * 10 + ((48 + d) - 48) ≡ m * 10 + d = omega arith in ground (arith, value)

parse_digits-digits :
    (fuel n : ℕ) (acc : Text)
    → n < u64_mod
    → n < ten_to fuel
    → parse_digits 0 (digits fuel n acc) ≡ parse_digits n acc
unfolding digits parse_digits
parse_digits-digits zero n acc small enough =
    let none_left : n ≡ 0 = omega (arith, enough) in rw none_left refl
parse_digits-digits (suc fuel) n acc small enough = elim (Bool-cases (ltb n 10)) [
  | inl e ↦
      let below = ltb→lt n 10 e in
      let value : 0 * 10 + n ≡ n = omega arith in
      rw (e, digits)
        (parse_digit 0 n acc below (omega (arith, below)) ∙ ap (λ m. parse_digits m acc) value)
  | inr e ↦
      let value : n / 10 * 10 + n % 10 ≡ n = omega arith in
      rw (e, digits)
        (parse_digits-digits fuel (n / 10) ((48 + n % 10) ∷ acc) (omega arith)
            (omega (arith, enough))
          ∙ parse_digit (n / 10) (n % 10) acc (omega arith) (omega arith)
          ∙ ap (λ m. parse_digits m acc) value)
]

-- A text that ends with a character that is not blank keeps it.
trim_end-append :
    (s : Text) (c : ℕ)
    → is_whitespace c ≡ false
    → (trim_end (s ++ c ∷ []) ≡ s ++ c ∷ []) × (is_empty (s ++ c ∷ []) ≡ false)
unfolding trim_end
trim_end-append [] c h = (ground arith, refl)
trim_end-append (x ∷ s) c h = (ground (arith, trim_end-append s c h), refl)

strip_suffix-append : (s : Text) (c : ℕ) → strip_suffix c (s ++ c ∷ []) ≡ some s
unfolding strip_suffix
strip_suffix-append [] c = ground (arith, ==_iff c c)
strip_suffix-append (x ∷ []) c = ground (arith, strip_suffix-append [] c)
strip_suffix-append (x ∷ y ∷ s) c = ground (arith, strip_suffix-append (y ∷ s) c)

not_blank : (c : ℕ) → IsDigit c → is_whitespace c ≡ false
unfolding is_whitespace
not_blank c (lo, hi) = ground arith

starts :
    (s : Text)
    → StartsDigit s
    → (trim_start (s ++ b'd' ∷ []) ≡ s ++ b'd' ∷ []) × (parse_u64 s ≡ parse_digits 0 s)
unfolding trim_start parse_u64
starts [] h = absurd (omega (arith, h))
starts (c ∷ cs) (lo, hi) = (ground (arith, not_blank c (lo, hi)), ground arith)

-- Digits, then the letter for days.
in_days :
    (s : Text) → StartsDigit s → parse_duration (s ++ b'd' ∷ []) ≡ seconds 86400 (parse_digits 0 s)
unfolding parse_duration is_whitespace
in_days s h =
    let (kept, value) = starts s h in
    let (ends, _) = trim_end-append s b'd' refl in
    rw (kept, ends, strip_suffix-append s b'd', value, parse_duration) refl

some_digits : (fuel n : ℕ) → StartsDigit (digits (suc fuel) n [])
unfolding digits
some_digits fuel n = elim (Bool-cases (ltb n 10)) [
  | inl e ↦ rw (e, digits) (omega arith, ground arith)
  | inr e ↦
      rw (e, digits)
        (digits-StartsDigit fuel (n / 10) ((48 + n % 10) ∷ []) (omega arith, omega arith))
]

all_digits : (n : ℕ) → n < u64_mod → parse_digits 0 (digits 20 n []) ≡ some n
unfolding parse_digits
all_digits n small = parse_digits-digits 20 n [] small (omega (arith, small))

-- A number of days in decimal, below 2^64, is parsed as that many times 86400 seconds, modulo 2^64.
pub parse_duration-decimal :
    (n : ℕ) → n < u64_mod → parse_duration (decimal n ++ b'd' ∷ []) ≡ ok (n * 86400 % u64_mod)
unfolding decimal
parse_duration-decimal n small =
    in_days (digits 20 n []) (some_digits 19 n) ∙ ap (seconds 86400) (all_digits n small)
