-- ===== src/Sentence/Slices.antt =====
-- The bits of an array of bytes, and what `extract_bits` and `set_bits` do with twelve of them.
use tgcryptfs.Crypto.Aead.{Bytes}
use tgcryptfs.Sentence.{set, write_bit, set_bit, set_loop, set_bits}
use tgcryptfs.Sentence.Bits.{bit_value, write_bit_lem}
use tgcryptfs.Common.{
  ℕ, zero, suc, ◌+◌, ◌-◌, ◌*◌, ◌/◌, ◌%◌, ◌^◌, ◌≤◌, ◌<◌, ◌≡◌, refl, ◌∙◌, inl, inr, Bool, true, ◌&&◌,
  [], ◌∷◌, arith, ltb, leb, ◌==◌, if◌then◌else◌, lt→ltb, Bool-cases, length, get_or, All,
}

-- The bit at a position, the highest of a byte first.
abbrev pub bit_at : Bytes → ℕ → ℕ
bit_at data_bytes position = get_or data_bytes (position / 8) 0 / 2 ^ (7 - position % 8) % 2

abbrev pub AreBytes : Bytes → Type 0
AreBytes bytes = All (λ b. b < 256) bytes

pub AreBytes-get_or : (bytes : Bytes) (i : ℕ) → AreBytes bytes → get_or bytes i 0 < 256
AreBytes-get_or [] i h = omega arith
AreBytes-get_or (x ∷ xs) zero h = h.0
AreBytes-get_or (x ∷ xs) (suc i) h = AreBytes-get_or xs i h.1

length-set : (bytes : Bytes) (i b : ℕ) → length (set bytes i b) ≡ length bytes
length-set [] i b = refl
length-set (x ∷ xs) zero b = refl
length-set (x ∷ xs) (suc i) b = omega (arith, length-set xs i b)

AreBytes-set : (bytes : Bytes) (i b : ℕ) → AreBytes bytes → b < 256 → AreBytes (set bytes i b)
AreBytes-set [] i b h hb = tt
AreBytes-set (x ∷ xs) zero b h hb = (hb, h.1)
AreBytes-set (x ∷ xs) (suc i) b h hb = (h.0, AreBytes-set xs i b h.1 hb)

get_or-set :
    (bytes : Bytes) (i b k : ℕ)
    → i < length bytes
    → get_or (set bytes i b) k 0 ≡ (if k == i then b else get_or bytes k 0)
get_or-set [] i b k h = absurd (omega arith)
get_or-set (x ∷ xs) zero b zero h = refl
get_or-set (x ∷ xs) zero b (suc k) h = ground arith
get_or-set (x ∷ xs) (suc i) b zero h = ground arith
get_or-set (x ∷ xs) (suc i) b (suc k) h = ground (arith, get_or-set xs i b k)

-- A written bit, and every other.
bit_at-set_bit :
    (bytes : Bytes) (position : ℕ) (v : Bool)
    → AreBytes bytes
    → position < 8 * length bytes
    → (length (set_bit bytes position v) ≡ length bytes)
      × AreBytes (set_bit bytes position v)
      × ((j : ℕ)
          → bit_at (set_bit bytes position v) j
            ≡ (if j == position then bit_value v else bit_at bytes j))
unfolding set_bit
bit_at-set_bit bytes position v h small =
    let i = position / 8 in
    let k = 7 - position % 8 in
    let b = get_or bytes i 0 in
    let within : ltb (position / 8) (length bytes) ≡ true = lt→ltb i (length bytes) (omega arith) in
    let inside : i < length bytes = omega arith in
    let byte = AreBytes-get_or bytes i h in
    rw within (
      length-set bytes i (write_bit v k b),
      AreBytes-set bytes i (write_bit v k b) h
          (write_bit_lem v b k 0 byte (omega arith) (omega arith)).1,
      λ j. elim (Bool-cases (j / 8 == i)) [
        | inl same ↦
            rw (get_or-set bytes i (write_bit v k b) (j / 8) inside, same)
              ((write_bit_lem v b k (7 - j % 8) byte (omega arith) (omega arith)).0 ∙ ground arith)
        | inr other ↦ rw (get_or-set bytes i (write_bit v k b) (j / 8) inside, other) (ground arith)
      ],
    )

-- The bits of a value, written from `p` on.
set_loop_bits :
    (value rounds p : ℕ) (bytes : Bytes)
    → AreBytes bytes
    → p + rounds ≤ 8 * length bytes
    → (length (set_loop value rounds p bytes) ≡ length bytes)
      × AreBytes (set_loop value rounds p bytes)
      × ((j : ℕ)
          → bit_at (set_loop value rounds p bytes) j ≡ (
              if leb p j && ltb j (p + rounds)
              then value / 2 ^ (p + rounds - 1 - j) % 2
              else bit_at bytes j))
unfolding set_loop
set_loop_bits value zero p bytes h small = (refl, h, λ j. ground arith)
set_loop_bits value (suc rounds) p bytes h small =
    let v = value / 2 ^ rounds % 2 == 1 in
    let (size, kept, bits) = bit_at-set_bit bytes p v h (omega arith) in
    let (size', kept', bits') =
      set_loop_bits value rounds (p + 1) (set_bit bytes p v) kept (omega (arith, size)) in
    (
      size' ∙ size,
      kept',
      λ j. bits' j ∙ elim (Bool-cases (j == p)) [
        | inl here ↦
            let place : p + suc rounds - 1 - j ≡ rounds = ground arith in
            rw place (ground (arith, bits j))
        | inr there ↦
            let place : p + suc rounds - 1 - j ≡ p + 1 + rounds - 1 - j = ground arith in
            rw place (ground (arith, bits j))
      ],
    )

pub set_bits-bits :
    (value count p : ℕ) (bytes : Bytes)
    → AreBytes bytes
    → p + count ≤ 8 * length bytes
    → (length (set_bits bytes p count value) ≡ length bytes)
      × AreBytes (set_bits bytes p count value)
      × ((j : ℕ)
          → bit_at (set_bits bytes p count value) j ≡ (
              if leb p j && ltb j (p + count)
              then value / 2 ^ (p + count - 1 - j) % 2
              else bit_at bytes j))
unfolding set_bits
set_bits-bits value count p bytes h small = set_loop_bits value count p bytes h small
