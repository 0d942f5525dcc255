-- ===== src/Sentence/Bits.antt =====
-- Single bits of a byte, by tables.
use Prim.Native.Nat.{bit_or}
use tgcryptfs.Sentence.{write_bit}
use tgcryptfs.Common.{
  inl, inr, Bool-cases, ℕ, zero, suc, ◌+◌, ◌/◌, ◌%◌, ◌^◌, ◌<◌, ◌≡◌, refl, Bool, true, false, not,
  ◌&&◌, ◌||◌, arith, ltb, ◌==◌, if◌then◌else◌, ltb→lt, ==_iff,
}

-- A test that holds of each number under a bound.
every : (ℕ → Bool) → ℕ → Bool
every test zero = true
every test (suc bound) = if test bound then every test bound else false

every-at : (test : ℕ → Bool) (k bound : ℕ) → k < bound → every test bound ≡ true → test k ≡ true
unfolding every
every-at test k zero under h = absurd (omega arith)
every-at test k (suc bound) under h = elim (Bool-cases (k == bound)) [
  | inl same ↦ ground arith
  | inr other ↦ every-at test k bound (ground arith) (ground arith)
]

abbrev pub bit_value : Bool → ℕ
bit_value true = 1
bit_value false = 0

-- The bits of a byte in which one has been written.
abbrev written_ok : Bool → ℕ → ℕ → ℕ → Bool
written_ok v b k m =
    (write_bit v k b / 2 ^ m % 2 == (if m == k then bit_value v else b / 2 ^ m % 2))
    && ltb (write_bit v k b) 256

abbrev table : Bool → Bool
table v = every (λ b. every (λ k. every (λ m. written_ok v b k m) 8) 8) 256

set_table : table true ≡ true
unfolding every write_bit
set_table = refl

clear_table : table false ≡ true
unfolding every write_bit
clear_table = refl

pub write_bit_lem :
    (v : Bool) (b k m : ℕ)
    → b < 256
    → k < 8
    → m < 8
    → (write_bit v k b / 2 ^ m % 2 ≡ (if m == k then bit_value v else b / 2 ^ m % 2))
      × (write_bit v k b < 256)
write_bit_lem v b k m hb hk hm =
    let of_b =
      every-at (λ b. every (λ k. every (λ m. written_ok v b k m) 8) 8) b 256 hb (whole v) in
    let of_k = every-at (λ k. every (λ m. written_ok v b k m) 8) k 8 hk of_b in
    let of_m = every-at (λ m. written_ok v b k m) m 8 hm of_k in
    let both : ((write_bit v k b / 2 ^ m % 2 == (if m == k then bit_value v else b / 2 ^ m % 2))
          ≡ true)
        × (ltb (write_bit v k b) 256 ≡ true) =
      and_true of_m in
    (
      (==_iff (write_bit v k b / 2 ^ m % 2) (if m == k then bit_value v else b / 2 ^ m % 2)).0
          both.0,
      ltb→lt (write_bit v k b) 256 both.1,
    )
  where
    whole : (v : Bool) → table v ≡ true
    whole true = set_table
    whole false = clear_table

    and_true : {a b : Bool} → a && b ≡ true → (a ≡ true) × (b ≡ true)
    and_true {a} {b} h = ground arith

-- A byte is determined by its bits.
pub eq_of_bits :
    (b c : ℕ) → b < 256 → c < 256 → ((m : ℕ) → m < 8 → b / 2 ^ m % 2 ≡ c / 2 ^ m % 2) → b ≡ c
eq_of_bits b c hb hc h =
    let h0 : b / 1 % 2 ≡ c / 1 % 2 = h 0 (omega arith) in
    let h1 : b / 2 % 2 ≡ c / 2 % 2 = h 1 (omega arith) in
    let h2 : b / 4 % 2 ≡ c / 4 % 2 = h 2 (omega arith) in
    let h3 : b / 8 % 2 ≡ c / 8 % 2 = h 3 (omega arith) in
    let h4 : b / 16 % 2 ≡ c / 16 % 2 = h 4 (omega arith) in
    let h5 : b / 32 % 2 ≡ c / 32 % 2 = h 5 (omega arith) in
    let h6 : b / 64 % 2 ≡ c / 64 % 2 = h 6 (omega arith) in
    let h7 : b / 128 % 2 ≡ c / 128 % 2 = h 7 (omega arith) in omega arith

-- To set a bit below the lowest one is to add it.
abbrev low_ok : ℕ → ℕ → Bool
low_ok v r = not (v % 2 ^ (r + 1) == 0) || (bit_or v (2 ^ r) == v + 2 ^ r)

low_table : every (λ v. every (λ r. low_ok v r) 12) 4096 ≡ true
unfolding every
low_table = refl

pub bit_or_low : (v r : ℕ) → v < 4096 → r < 12 → v % 2 ^ (r + 1) ≡ 0 → bit_or v (2 ^ r) ≡ v + 2 ^ r
bit_or_low v r hv hr h =
    let of_v = every-at (λ v. every (λ r. low_ok v r) 12) v 4096 hv low_table in
    let of_r = every-at (λ r. low_ok v r) r 12 hr of_v in
    (==_iff (bit_or v (2 ^ r)) (v + 2 ^ r)).0 (second ((==_iff (v % 2 ^ (r + 1)) 0).1 h) of_r)
  where
    second : {a b : Bool} → a ≡ true → not a || b ≡ true → b ≡ true
    second {a} {b} h g = ground arith
