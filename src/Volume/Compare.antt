-- ===== src/Volume/Compare.antt =====
-- The comparison of two hashes without early exit decides their equality.
use mathlib.Core.Path.{subst}
use Prim.Native.Nat.{bit_or, bit_xor, bit_or-bitwise, bit_xor-bitwise, digits, differ}
use tgcryptfs.Crypto.Aead.{Bytes}
use tgcryptfs.Volume.{diff_loop, hash_diff}
use tgcryptfs.Common.{
  ℕ, zero, suc, ◌/◌, ◌%◌, ◌≤◌, max, ◌≡◌, refl, sym, ap, ◌∙◌, ◌↔◌, [], ◌∷◌, arith, length,
}

-- The digit operations with a count of digits that is large enough: when they give 0.
or_digits-zero : (n a b : ℕ) → a ≤ n → digits (λ x. x) max n a b ≡ 0 → (a ≡ 0) × (b ≡ 0)
or_digits-zero zero zero b p h = (refl, h)
or_digits-zero zero (suc a) b p h = absurd (omega arith)
or_digits-zero (suc n) zero b p h = (refl, h)
or_digits-zero (suc n) (suc a) b p h =
    let (low, high) = or_digits-zero n (suc a / 2) (b / 2) (omega arith) (omega (arith, h)) in
    absurd (omega (arith, h, low))

differ-zero : (x y : ℕ) → differ x y ≡ 0 → x ≡ y
differ-zero zero y h = sym h
differ-zero (suc x) zero h = absurd (omega (arith, h))
differ-zero (suc x) (suc y) h = ap (λ n. suc n) (differ-zero x y h)

differ_self : (x : ℕ) → differ x x ≡ 0
differ_self zero = refl
differ_self (suc x) = differ_self x

xor_digits-zero : (n a b : ℕ) → a ≤ n → digits (λ x. x) differ n a b ≡ 0 → a ≡ b
xor_digits-zero zero zero b p h = sym h
xor_digits-zero zero (suc a) b p h = absurd (omega arith)
xor_digits-zero (suc n) zero b p h = sym h
xor_digits-zero (suc n) (suc a) b p h =
    let halves = xor_digits-zero n (suc a / 2) (b / 2) (omega arith) (omega (arith, h)) in
    let rests = differ-zero (suc a % 2) (b % 2) (omega (arith, h)) in omega (arith, halves, rests)

xor_digits_self : (n a : ℕ) → a ≤ n → digits (λ x. x) differ n a a ≡ 0
xor_digits_self zero zero p = refl
xor_digits_self zero (suc a) p = absurd (omega arith)
xor_digits_self (suc n) zero p = refl
xor_digits_self (suc n) (suc a) p =
    omega (arith, xor_digits_self n (suc a / 2) (omega arith), differ_self (suc a % 2))

bit_or-zero : (a b : ℕ) → bit_or a b ≡ 0 → (a ≡ 0) × (b ≡ 0)
bit_or-zero a b h = or_digits-zero a a b (omega arith) (sym (bit_or-bitwise a b) ∙ h)

bit_xor-zero : (a b : ℕ) → bit_xor a b ≡ 0 → a ≡ b
bit_xor-zero a b h = xor_digits-zero a a b (omega arith) (sym (bit_xor-bitwise a b) ∙ h)

bit_xor_self : (a : ℕ) → bit_xor a a ≡ 0
bit_xor_self a = bit_xor-bitwise a a ∙ xor_digits_self a a (omega arith)

-- Nothing is lost of what differed before, and lists of one length are equal if nothing differs.
pub diff_loop-zero :
    (diff : ℕ) (as' bs : Bytes)
    → diff_loop diff as' bs ≡ 0
    → (diff ≡ 0) × (length as' ≡ length bs → as' ≡ bs)
unfolding diff_loop
diff_loop-zero diff [] [] h = (h, λ _. refl)
diff_loop-zero diff [] (b ∷ bs) h = (h, λ long. absurd (omega (arith, long)))
diff_loop-zero diff (a ∷ as') [] h = (h, λ long. absurd (omega (arith, long)))
diff_loop-zero diff (a ∷ as') (b ∷ bs) h =
    let (now, later) = diff_loop-zero (bit_or diff (bit_xor a b)) as' bs h in
    let (before, same) = bit_or-zero diff (bit_xor a b) now in
    let e = bit_xor-zero a b same in
    (before, λ long. ap (λ x. x ∷ as') e ∙ ap (λ x. b ∷ x) (later (omega (arith, long))))

pub diff_loop_self : (bs : Bytes) → diff_loop 0 bs bs ≡ 0
unfolding diff_loop
diff_loop_self [] = refl
diff_loop_self (b ∷ bs) =
    ap (λ d. diff_loop (bit_or 0 d) bs bs) (bit_xor_self b) ∙ diff_loop_self bs

-- The difference that `open_volume` computes of two hashes is 0 exactly if they are equal, of
-- whatever lengths they are.
pub hash_diff_iff :
    (actual expected : Bytes) → (hash_diff actual expected ≡ 0) ↔ (actual ≡ expected)
unfolding hash_diff
hash_diff_iff actual expected = (
  λ h.
      let (lengths, same) =
        diff_loop-zero (bit_xor (length actual) (length expected)) actual expected h in
      same (bit_xor-zero (length actual) (length expected) lengths),
  λ e.
      subst (λ x. hash_diff actual x ≡ 0) e
        (ap (λ d. diff_loop d actual actual) (bit_xor_self (length actual))
          ∙ diff_loop_self actual),
)
