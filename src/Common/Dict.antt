-- ===== src/Common/Dict.antt =====
-- A `HashMap` as an association list with at most one entry for a key, over keys with an equality
-- test. The order of the entries stands for the map's unspecified order of iteration.
use Prim.Native.Nat.{ℕ, ◌+◌}
use mathlib.Core.Bool.{Bool, true, false, ◌&&◌}
use mathlib.Core.List.{List, [], ◌∷◌}
use mathlib.Core.Logic.{◌↔◌, inl, inr}
use mathlib.Core.Option.{Option, none, some}
use mathlib.Core.Path.{◌≡◌, refl, subst}
use native.Mathlib.Omega.{arith}
use tgcryptfs.Common.Tests.{Bool-cases, ◌==◌, ==_iff, if◌then◌else◌}
use tgcryptfs.Common.Lists.{length, All}

pub record Eq {ℓ} (K : Type ℓ) : Type ℓ where
  pub beq : K → K → Bool
  pub beq_iff : (a b : K) → (beq a b ≡ true) ↔ (a ≡ b)

instance abbrev pub nat_eq : Eq ℕ
nat_eq = record { beq = ◌==◌; beq_iff = ==_iff }

module _ {ℓ} {K : Type ℓ} ⦃e : Eq K⦄ where
  pub beq_refl : (k : K) → e.beq k k ≡ true
  beq_refl k = (e.beq_iff k k).1 refl

abbrev pub Dict {ℓ κ} : Type ℓ → Type κ → Type (ℓ ⊔ κ)
Dict K V = List (K × V)

abbrev pub value_at {κ} : {V : Type κ} → (V → ℕ) → Option V → ℕ
value_at f none = 0
value_at f (some v) = f v

module _ {ℓ κ} {K : Type ℓ} {V : Type κ} ⦃e : Eq K⦄ where
  abbrev pub lookup : K → Dict K V → Option V
  lookup k [] = none
  lookup k ((j, v) ∷ m) = let rest = lookup k m in elim (e.beq j k) [ true ↦ some v | false ↦ rest ]

  abbrev pub remove : K → Dict K V → Dict K V
  remove k [] = []
  remove k ((j, v) ∷ m) =
      let rest = remove k m in elim (e.beq j k) [ true ↦ rest | false ↦ (j, v) ∷ rest ]

  abbrev pub insert : K → V → Dict K V → Dict K V
  insert k v m = (k, v) ∷ remove k m

  abbrev pub contains_key : K → Dict K V → Bool
  contains_key k m = elim (lookup k m) [ none ↦ false | some v ↦ true ]

  pub lookup-remove :
      (k j : K) (m : Dict K V) → lookup j (remove k m) ≡ (if e.beq k j then none else lookup j m)
  lookup-remove k j [] = ground arith
  lookup-remove k j ((i, v) ∷ m) =
      ground (arith, lookup-remove k j m, e.beq_iff i k, e.beq_iff i j, e.beq_iff k j)

  pub lookup-insert :
      (k j : K) (v : V) (m : Dict K V)
      → lookup j (insert k v m) ≡ (if e.beq k j then some v else lookup j m)
  lookup-insert k j v m = ground (arith, lookup-remove k j m)

  -- No key stands twice.
  abbrev pub NoDup : Dict K V → Type κ
  NoDup [] = Unit
  NoDup ((k, v) ∷ m) = (lookup k m ≡ none) × NoDup m

  pub NoDup-remove : (k : K) (m : Dict K V) → NoDup m → NoDup (remove k m)
  NoDup-remove k [] d = tt
  NoDup-remove k ((j, v) ∷ m) (h, d) = ground (arith, NoDup-remove k m d, lookup-remove k j m, h)

  pub NoDup-insert : (k : K) (v : V) (m : Dict K V) → NoDup m → NoDup (insert k v m)
  NoDup-insert k v m d = (rw (lookup-remove k k m) (rw (beq_refl k) refl), NoDup-remove k m d)

  pub remove_absent : (k : K) (m : Dict K V) → lookup k m ≡ none → remove k m ≡ m
  remove_absent k [] h = refl
  remove_absent k ((j, v) ∷ m) h = ground (arith, remove_absent k m)

  -- A sum over the values: what removing a key takes off it.
  abbrev pub sum_by : (V → ℕ) → Dict K V → ℕ
  sum_by f [] = 0
  sum_by f ((k, v) ∷ m) = f v + sum_by f m

  pub sum_by-remove :
      (f : V → ℕ) (k : K) (m : Dict K V)
      → NoDup m
      → sum_by f m ≡ value_at f (lookup k m) + sum_by f (remove k m)
  sum_by-remove f k [] d = omega arith
  sum_by-remove f k ((j, v) ∷ m) (h, d) =
      ground (arith, sum_by-remove f k m d, remove_absent k m, e.beq_iff j k)

  pub length-remove :
      (k : K) (m : Dict K V) (v : V)
      → NoDup m
      → lookup k m ≡ some v
      → length m ≡ length (remove k m) + 1
  length-remove k [] v d h = absurd (ground arith)
  length-remove k ((j, w) ∷ m) v (a, d) h =
      ground (arith, length-remove k m v d, remove_absent k m, e.beq_iff j k)

-- A property of every entry, under the operations.
module _ {ℓ κ μ} {K : Type ℓ} {V : Type κ} ⦃e : Eq K⦄ (P : K × V → Type μ) where
  pub All-remove : (k : K) (m : Dict K V) → All P m → All P (remove k m)
  All-remove k [] h = tt
  All-remove k ((j, v) ∷ m) (p, h) =
      (elim (e.beq j k)
        as (λ b. All P (elim b [ true ↦ remove k m | false ↦ (j, v) ∷ remove k m ])) [
          | true ↦ All-remove k m h
          | false ↦ (p, All-remove k m h)
        ])

  pub All-lookup : (k : K) (m : Dict K V) (v : V) → All P m → lookup k m ≡ some v → P (k, v)
  All-lookup k [] v h eq = absurd (ground arith)
  All-lookup k ((j, w) ∷ m) v (p, h) eq = elim (Bool-cases (e.beq j k)) [
    | inl same ↦
        let jk : j ≡ k = (e.beq_iff j k).0 same in
        let wv : w ≡ v = ground arith in subst (λ x. P (x, v)) jk (subst (λ y. P (j, y)) wv p)
    | inr other ↦ All-lookup k m v h (ground arith)
  ]

-- Equality of lists, from that of their elements.
module _ {ℓ} {A : Type ℓ} ⦃e : Eq A⦄ where
  abbrev pub list_beq : List A → List A → Bool
  list_beq [] [] = true
  list_beq (a ∷ xs) (b ∷ ys) = e.beq a b && list_beq xs ys
  list_beq _ _ = false

  pub list_beq_iff : (xs ys : List A) → (list_beq xs ys ≡ true) ↔ (xs ≡ ys)
  list_beq_iff [] [] = (λ _. refl, λ _. refl)
  list_beq_iff [] (b ∷ ys) = (λ h. cc, λ h. cc)
  list_beq_iff (a ∷ xs) [] = (λ h. cc, λ h. cc)
  list_beq_iff (a ∷ xs) (b ∷ ys) = ground (arith, list_beq_iff xs ys, e.beq_iff a b)

  instance abbrev pub list_eq : Eq (List A)
  list_eq = record { beq = list_beq; beq_iff = list_beq_iff }
