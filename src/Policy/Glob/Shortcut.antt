-- ===== src/Policy/Glob/Shortcut.antt =====
-- The two patterns that `glob_matches` answers at once.
use mathlib.Core.Path.{subst}
use tgcryptfs.Common.Dict.{list_eq, nat_eq, list_beq, list_beq_iff}
use tgcryptfs.Policy.Glob.{
  Text, star, slash, double_star, split_onto, split, any_tail, match_head, glob_match_segment,
  glob_match_parts, glob_matches,
}
use tgcryptfs.Common.{◌≡◌, refl, sym, inl, inr, true, List, [], ◌∷◌, ◌++◌, arith, ◌==◌, Bool-cases}

-- The split of a text has a first part.
split_onto-cons :
    (part text : Text) → (p : Text) × (ps : List Text) × (split_onto part text ≡ p ∷ ps)
unfolding split_onto
split_onto-cons part [] = (part, [], refl)
split_onto-cons part (c ∷ text) = elim (Bool-cases (c == slash)) [
  | inl cut ↦ (part, split_onto [] text, ground arith)
  | inr on ↦ let (p, ps, e) = split_onto-cons (part ++ c ∷ []) text in (p, ps, ground (arith, e))
]

-- `**` alone matches every path.
any_tail_all : (path : List Text) → any_tail (glob_match_parts []) path ≡ true
unfolding any_tail glob_match_parts
any_tail_all [] = refl
any_tail_all (s ∷ path) = any_tail_all path

-- `**` and then `*` match every path that has a segment.
any_tail-star :
    (s : Text) (path : List Text) → any_tail (glob_match_parts ((star ∷ []) ∷ [])) (s ∷ path) ≡ true
unfolding any_tail glob_match_parts match_head glob_match_segment
any_tail-star s [] = refl
any_tail-star s (t ∷ path) = any_tail-star t path

abbrev under_all : Text
under_all = double_star ++ slash ∷ star ∷ []

parts_double_star : (path : List Text) → glob_match_parts (split double_star) path ≡ true
unfolding split split_onto glob_match_parts
parts_double_star path = any_tail_all path

parts_under_all : (path : Text) → glob_match_parts (split under_all) (split path) ≡ true
unfolding split split_onto glob_match_parts
parts_under_all path = let (p, ps, e) = split_onto-cons [] path in rw e (any_tail-star p ps)

-- The shortcut of `glob_matches` for the patterns `**` and `**/*` changes no answer: for every
-- pattern and path the result is that of the matcher on the split texts.
glob_matches-eq_parts :
    (pat path : Text) → glob_matches pat path ≡ glob_match_parts (split pat) (split path)
unfolding glob_matches
glob_matches-eq_parts pat path = elim (Bool-cases (list_beq pat double_star)) [
  | inl two ↦
      subst (λ q. glob_matches q path ≡ glob_match_parts (split q) (split path))
        (sym ((list_beq_iff pat double_star).0 two)) (sym (parts_double_star (split path)))
  | inr other ↦ elim (Bool-cases (list_beq pat under_all)) [
    | inl under ↦
        subst (λ q. glob_matches q path ≡ glob_match_parts (split q) (split path))
          (sym ((list_beq_iff pat under_all).0 under)) (sym (parts_under_all path))
    | inr none_of_them ↦ ground arith
  ]
]
