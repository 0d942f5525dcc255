-- ===== src/Sentence/Extract.antt =====
-- The twelve bits that `extract_bits` puts together.
use mathlib.Core.Path.{subst}
use Prim.Native.Nat.{bit_or}
use native.Mathlib.Nat.{div-div-eq-div-mul}
use native.Mathlib.Numerals.{unary_clauses}
use tgcryptfs.Crypto.Aead.{Bytes}
use tgcryptfs.Sentence.{test_bit, extract_loop, extract_bits}
use tgcryptfs.Sentence.Bits.{bit_or_low}
use tgcryptfs.Sentence.Slices.{bit_at}
use tgcryptfs.Common.{
  ℕ, zero, suc, ◌+◌, ◌-◌, ◌*◌, ◌/◌, ◌%◌, ◌^◌, ◌≤◌, ◌<◌, ◌≡◌, refl, sym, ap, ◌∙◌, inl, inr, arith,
  ◌==◌, if◌then◌else◌, lt→ltb, ==_iff, Bool-cases, length,
}

-- A property of the numbers below a numeral, case by case.
abbrev Upto : (ℕ → Type 0) → ℕ → Type 0
Upto P zero = Unit
Upto P (suc n) = P n × Upto P n

of_Upto : (P : ℕ → Type 0) (n i : ℕ) → Upto P n → i < n → P i
of_Upto P zero i u h = absurd (omega arith)
of_Upto P (suc n) i u h = elim (Bool-cases (i == n)) [
  | inl e ↦ let same : n ≡ i = sym ((==_iff i n).0 e) in subst P same u.0
  | inr e ↦ of_Upto P n i u.1 (ground arith)
]

-- What a round needs of the value so far, a multiple of the next power of two.
abbrev RoundFits : ℕ → Type 0
RoundFits r =
    (h b : ℕ)
    → h < 2 ^ (11 - r)
    → b < 2
    → (2 ^ suc r * h < 4096)
      × (2 ^ suc r * h % 2 ^ (r + 1) ≡ 0)
      × (2 ^ suc r * h + 2 ^ r * b ≡ 2 ^ r * (2 * h + b))

round_fits : (r : ℕ) → r < 12 → RoundFits r
round_fits r small =
    let u1 : Upto RoundFits 1 = (λ h b low bit. (omega arith, omega arith, omega arith), tt) in
    let u2 : Upto RoundFits 2 = (λ h b low bit. (omega arith, omega arith, omega arith), u1) in
    let u3 : Upto RoundFits 3 = (λ h b low bit. (omega arith, omega arith, omega arith), u2) in
    let u4 : Upto RoundFits 4 = (λ h b low bit. (omega arith, omega arith, omega arith), u3) in
    let u5 : Upto RoundFits 5 = (λ h b low bit. (omega arith, omega arith, omega arith), u4) in
    let u6 : Upto RoundFits 6 = (λ h b low bit. (omega arith, omega arith, omega arith), u5) in
    let u7 : Upto RoundFits 7 = (λ h b low bit. (omega arith, omega arith, omega arith), u6) in
    let u8 : Upto RoundFits 8 = (λ h b low bit. (omega arith, omega arith, omega arith), u7) in
    let u9 : Upto RoundFits 9 = (λ h b low bit. (omega arith, omega arith, omega arith), u8) in
    let u10 : Upto RoundFits 10 = (λ h b low bit. (omega arith, omega arith, omega arith), u9) in
    let u11 : Upto RoundFits 11 = (λ h b low bit. (omega arith, omega arith, omega arith), u10) in
    let u12 : Upto RoundFits 12 = (λ h b low bit. (omega arith, omega arith, omega arith), u11) in
    of_Upto RoundFits 12 r u12 small

module _ (data_bytes : Bytes) where
  test_bit_lem :
      (p : ℕ) → p < 8 * length data_bytes → test_bit data_bytes p ≡ (bit_at data_bytes p == 1)
  unfolding test_bit
  test_bit_lem p inside = rw (lt→ltb (p / 8) (length data_bytes) (omega arith)) refl

  next_value :
      (r p v w : ℕ)
      → p < 8 * length data_bytes
      → r < 12
      → v < 4096
      → v % 2 ^ (r + 1) ≡ 0
      → v + 2 ^ r * bit_at data_bytes p ≡ w
      → (if test_bit data_bytes p then bit_or v (2 ^ r) else v) ≡ w
  next_value r p v w inside small low clear sum = elim (Bool-cases (bit_at data_bytes p == 1)) [
    | inl e ↦
        let one : bit_at data_bytes p ≡ 1 = (==_iff (bit_at data_bytes p) 1).0 e in
        rw (test_bit_lem p inside, e)
          (bit_or_low v r low small clear ∙ omega (arith, sum, ap (λ (t : ℕ). 2 ^ r * t) one))
    | inr e ↦
        let nil : bit_at data_bytes p ≡ 0 = ground arith in
        rw (test_bit_lem p inside, e) (omega (arith, sum, ap (λ (t : ℕ). 2 ^ r * t) nil))
  ]

  -- One round of `extract_bits` at a numeral.
  extract_step :
      (r p p' v w : ℕ)
      → p + 1 ≡ p'
      → p < 8 * length data_bytes
      → r < 12
      → v < 4096
      → v % 2 ^ (r + 1) ≡ 0
      → v + 2 ^ r * bit_at data_bytes p ≡ w
      → extract_loop data_bytes (suc r) p v ≡ extract_loop data_bytes r p' w
  unfolding extract_loop
  extract_step r p p' v w next inside small low clear sum =
      rw (next_value r p v w inside small low clear sum, next) refl

  -- The first bits from `p` on as a number.
  leading : ℕ → ℕ → ℕ
  leading p zero = 0
  leading p (suc k) = 2 * leading p k + bit_at data_bytes (p + k)

  leading-lt : (p k : ℕ) → leading p k < 2 ^ k
  unfolding leading
  leading-lt p zero = omega arith
  leading-lt p (suc k) = simp unary_clauses (omega (arith, leading-lt p k))

  leading_start : (p : ℕ) → leading p 0 ≡ 0
  unfolding leading
  leading_start p = refl

  leading_next : (p k : ℕ) → leading p (suc k) ≡ 2 * leading p k + bit_at data_bytes (p + k)
  unfolding leading
  leading_next p k = refl

  -- The loop with so many rounds to go.
  extract_loop-leading :
      (r k p : ℕ)
      → r + k ≡ 12
      → p + 12 ≤ 8 * length data_bytes
      → extract_loop data_bytes r (p + k) (2 ^ r * leading p k) ≡ leading p 12
  unfolding extract_loop
  extract_loop-leading zero k p all inside =
      let bits : k ≡ 12 = omega (arith, all) in
      let whole = ap (leading p) bits in omega (arith, whole)
  extract_loop-leading (suc r) k p all inside =
      let bits : k ≡ 11 - r = omega (arith, all) in
      let low = subst (λ n. leading p k < 2 ^ n) bits (leading-lt p k) in
      let (small, clear, sum) =
        round_fits r (omega (arith, all)) (leading p k) (bit_at data_bytes (p + k)) low
          (omega arith) in
      extract_step r (p + k) (p + suc k) (2 ^ suc r * leading p k) (2 ^ r * leading p (suc k))
        (omega arith) (omega (arith, all, inside)) (omega (arith, all)) small clear
        (sum ∙ ap (λ (x : ℕ). 2 ^ r * x) (sym (leading_next p k)))
      ∙ extract_loop-leading r (suc k) p (omega (arith, all)) inside

  -- A bit of that number.
  leading-bit : (p k i : ℕ) → i < k → leading p k / 2 ^ (k - 1 - i) % 2 ≡ bit_at data_bytes (p + i)
  unfolding leading
  leading-bit p zero i below = absurd (omega arith)
  leading-bit p (suc k) i below = elim (Bool-cases (i == k)) [
    | inl e ↦
        let same : i ≡ k = (==_iff i k).0 e in
        let place : suc k - 1 - i ≡ 0 = omega (arith, same) in rw (place, same) (omega arith)
    | inr e ↦
        let less : i < k = ground arith in
        let place : suc k - 1 - i ≡ suc (k - 1 - i) = omega (arith, less) in
        let power : 2 ^ suc (k - 1 - i) ≡ 2 * 2 ^ (k - 1 - i) = simp unary_clauses (omega arith) in
        let longer = 2 * leading p k + bit_at data_bytes (p + k) in
        let half : longer / 2 ≡ leading p k = omega arith in
        rw (place, power, sym (div-div-eq-div-mul longer 2 (2 ^ (k - 1 - i))), half)
          (leading-bit p k i less)
  ]

  extract_bits-leading :
      (p : ℕ) → p + 12 ≤ 8 * length data_bytes → extract_bits data_bytes p 12 ≡ leading p 12
  unfolding extract_bits
  extract_bits-leading p inside =
      let start : p ≡ p + 0 = omega arith in
      let nothing : 0 ≡ 2 ^ 12 * leading p 0 = omega (arith, leading_start p) in
      ap (λ (x : ℕ). extract_loop data_bytes 12 x 0) start
      ∙ ap (λ (v : ℕ). extract_loop data_bytes 12 (p + 0) v) nothing
      ∙ extract_loop-leading 12 0 p (omega arith) inside

  -- The bit of the extracted value at each place.
  pub extract_bits-bit :
      (p i : ℕ)
      → p + 12 ≤ 8 * length data_bytes
      → i < 12
      → extract_bits data_bytes p 12 / 2 ^ (11 - i) % 2 ≡ bit_at data_bytes (p + i)
  extract_bits-bit p i inside small = rw (extract_bits-leading p inside) (leading-bit p 12 i small)

  pub extract_bits-lt :
      (p : ℕ) → p + 12 ≤ 8 * length data_bytes → extract_bits data_bytes p 12 < 4096
  extract_bits-lt p inside = rw (extract_bits-leading p inside) (leading-lt p 12)
