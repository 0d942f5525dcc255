-- ===== src/Common/Indexing.antt =====
-- What stands at an index of a list that is put together from others.
use Prim.Native.Nat.{◌<◌, ℕ, zero, suc, ◌+◌, ◌-◌}
use mathlib.Core.Path.{◌≡◌, refl}
use mathlib.Core.Bool.{false}
use mathlib.Core.List.{List, [], ◌∷◌, ◌++◌}
use native.Mathlib.Omega.{arith}
use tgcryptfs.Common.Tests.{ltb, if◌then◌else◌}
use tgcryptfs.Common.Lists.{length, take, drop, get_or, replicate}

module _ {ℓ} {A : Type ℓ} (d : A) where
  pub get_or-append :
      (xs ys : List A) (i : ℕ)
      → get_or (xs ++ ys) i d
        ≡ (if ltb i (length xs) then get_or xs i d else get_or ys (i - length xs) d)
  get_or-append [] ys i = ground arith
  get_or-append (x ∷ xs) ys zero = ground arith
  get_or-append (x ∷ xs) ys (suc i) = ground (arith, get_or-append xs ys i)

  pub get_or-take :
      (n : ℕ) (xs : List A) (i : ℕ)
      → get_or (take n xs) i d ≡ (if ltb i n then get_or xs i d else d)
  get_or-take zero xs i = ground arith
  get_or-take (suc n) [] i = ground arith
  get_or-take (suc n) (x ∷ xs) zero = ground arith
  get_or-take (suc n) (x ∷ xs) (suc i) = ground (arith, get_or-take n xs i)

  pub get_or-drop : (n : ℕ) (xs : List A) (i : ℕ) → get_or (drop n xs) i d ≡ get_or xs (n + i) d
  get_or-drop zero xs i = ground arith
  get_or-drop (suc n) [] i = ground arith
  get_or-drop (suc n) (x ∷ xs) i = ground (arith, get_or-drop n xs i)

  pub get_or-replicate : (n i : ℕ) → get_or (replicate n d) i d ≡ d
  get_or-replicate zero i = ground arith
  get_or-replicate (suc n) zero = ground arith
  get_or-replicate (suc n) (suc i) = get_or-replicate n i

  pub get_or-beyond : (xs : List A) (i : ℕ) → ltb i (length xs) ≡ false → get_or xs i d ≡ d
  get_or-beyond [] i h = ground arith
  get_or-beyond (x ∷ xs) zero h = ground arith
  get_or-beyond (x ∷ xs) (suc i) h = ground (arith, get_or-beyond xs i)

  pub length-replicate : (n : ℕ) → length (replicate n d) ≡ n
  length-replicate zero = ground arith
  length-replicate (suc n) = ground (arith, length-replicate n)

  -- Lists of one length with the same elements are the same.
  pub eq_of_get_or :
      (xs ys : List A)
      → length xs ≡ length ys
      → ((k : ℕ) → k < length xs → get_or xs k d ≡ get_or ys k d)
      → xs ≡ ys
  eq_of_get_or [] [] h f = refl
  eq_of_get_or [] (y ∷ ys) h f = absurd (omega arith)
  eq_of_get_or (x ∷ xs) [] h f = absurd (omega arith)
  eq_of_get_or (x ∷ xs) (y ∷ ys) h f =
      let head : x ≡ y = f 0 (omega arith) in
      let tail = eq_of_get_or xs ys (omega (arith, h)) (λ k small. f (suc k) (omega arith)) in
      rw (head, tail) refl
