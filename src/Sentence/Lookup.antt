-- ===== src/Sentence/Lookup.antt =====
-- The reverse lookup of a word list whose words are distinct.
use tgcryptfs.Common.Dict.{
  Dict, lookup, insert, list_eq, nat_eq, list_beq, list_beq_iff, lookup-insert,
}
use tgcryptfs.Sentence.{Word, get_elem?, index_words, build_reverse_lookup}
use tgcryptfs.Common.{
  ℕ, zero, suc, ◌+◌, ◌%◌, ◌^◌, ◌<◌, ◌≡◌, refl, ap, ◌∙◌, ◌≢◌, true, false, some, List, [], ◌∷◌,
  arith, length,
}

-- No word stands at two places.
abbrev pub AreDistinct : List Word → Type 0
AreDistinct ws = (i j : ℕ) (w : Word) → get_elem? ws i ≡ some w → get_elem? ws j ≡ some w → i ≡ j

pub get_elem?_inside :
    {A : Type 0} (xs : List A) (i : ℕ) → i < length xs → (x : A) × (get_elem? xs i ≡ some x)
get_elem?_inside [] i h = absurd (omega arith)
get_elem?_inside (x ∷ xs) zero h = (x, refl)
get_elem?_inside (x ∷ xs) (suc i) h = get_elem?_inside xs i (omega arith)

lookup-index_words_absent :
    (w : Word) (i : ℕ) (ws : List Word) (m : Dict Word ℕ)
    → ((j : ℕ) → get_elem? ws j ≢ some w)
    → lookup w (index_words i ws m) ≡ lookup w m
unfolding index_words
lookup-index_words_absent w i [] m absent = refl
lookup-index_words_absent w i (x ∷ ws) m absent =
    let other : list_beq x w ≡ false = ground (arith, list_beq_iff x w, absent 0) in
    lookup-index_words_absent w (i + 1) ws (insert x (i % 2 ^ 16) m) (λ j. absent (suc j))
    ∙ lookup-insert x w (i % 2 ^ 16) m
    ∙ rw other refl

lookup-index_words :
    (w : Word) (i k : ℕ) (ws : List Word) (m : Dict Word ℕ)
    → AreDistinct ws
    → get_elem? ws k ≡ some w
    → lookup w (index_words i ws m) ≡ some ((i + k) % 2 ^ 16)
unfolding index_words
lookup-index_words w i k [] m distinct there = absurd (ground arith)
lookup-index_words w i zero (x ∷ ws) m distinct there =
    let same : list_beq x w ≡ true = ground (arith, list_beq_iff x w) in
    lookup-index_words_absent w (i + 1) ws (insert x (i % 2 ^ 16) m)
      (λ j again. absurd (omega (arith, distinct 0 (suc j) w there again)))
    ∙ lookup-insert x w (i % 2 ^ 16) m
    ∙ rw same (ap some (omega arith))
lookup-index_words w i (suc k) (x ∷ ws) m distinct there =
    lookup-index_words w (i + 1) k ws (insert x (i % 2 ^ 16) m)
      (λ a b v p q. omega (arith, distinct (suc a) (suc b) v p q)) there
    ∙ ap some (omega arith)

-- A word of the first 4096 is found under its index.
pub lookup-build_reverse_lookup :
    (w : Word) (k : ℕ) (ws : List Word)
    → AreDistinct ws
    → k < 4096
    → get_elem? ws k ≡ some w
    → lookup w (build_reverse_lookup ws) ≡ some k
unfolding build_reverse_lookup
lookup-build_reverse_lookup w k ws distinct small there =
    lookup-index_words w 0 k ws [] distinct there ∙ ap some (omega arith)
