-- ===== src/Policy/Glob.antt =====
-- `glob_matches` and its helpers in crates/tgcryptfs-core/src/policy/types.rs. A text is the list of
-- its characters.
pub mod Matching
pub mod Shortcut
use tgcryptfs.Common.Dict.{list_eq, nat_eq, list_beq}
use tgcryptfs.Common.{
  ℕ, Bool, true, false, ◌&&◌, ◌||◌, Option, none, some, List, [], ◌∷◌, ◌++◌, ◌==◌, if◌then◌else◌,
  is_empty,
}

abbrev pub Text : Type 0
Text = List ℕ

abbrev pub slash : ℕ
slash = b'/'

abbrev pub star : ℕ
star = b'*'

abbrev pub double_star : Text
double_star = star ∷ star ∷ []

-- `split('/')`: at least one part.
unfoldable pub split_onto : Text → Text → List Text
split_onto part [] = part ∷ []
split_onto part (c ∷ text) =
    let next = split_onto [] text in
    let same = split_onto (part ++ c ∷ []) text in if c == slash then part ∷ next else same

unfoldable pub split : Text → List Text
unfolding split_onto
split text = split_onto [] text

unfoldable pub starts_with : Text → Text → Bool
starts_with [] text = true
starts_with (p ∷ ps) [] = false
starts_with (p ∷ ps) (c ∷ cs) = p == c && starts_with ps cs

-- Some tail of the text is the suffix.
unfoldable pub ends_with : Text → Text → Bool
ends_with suffix [] = list_beq suffix []
ends_with suffix (c ∷ cs) = list_beq suffix (c ∷ cs) || ends_with suffix cs

-- `strip_prefix('*')` and `strip_suffix('*')`
unfoldable pub strip_prefix_star : Text → Option Text
strip_prefix_star [] = none
strip_prefix_star (c ∷ cs) = if c == star then some cs else none

unfoldable pub strip_suffix_star : Text → Option Text
strip_suffix_star [] = none
strip_suffix_star (c ∷ []) = if c == star then some [] else none
strip_suffix_star (c ∷ d ∷ cs) = elim (strip_suffix_star (d ∷ cs)) [
  | none ↦ none
  | some rest ↦ some (c ∷ rest)
]

unfoldable pub glob_match_segment : Text → Text → Bool
unfolding strip_prefix_star strip_suffix_star starts_with ends_with
glob_match_segment pattern_ segment =
    if list_beq pattern_ (star ∷ []) then true else elim (strip_prefix_star pattern_) [
      | some suffix ↦ ends_with suffix segment
      | none ↦ elim (strip_suffix_star pattern_) [
        | some prefix ↦ starts_with prefix segment
        | none ↦ list_beq pattern_ segment
      ]
    ]

-- The `for` loop over the tails of the path.
unfoldable pub any_tail : (List Text → Bool) → List Text → Bool
any_tail f [] = f []
any_tail f (s ∷ path) = f (s ∷ path) || any_tail f path

-- The case of a pattern part that is not `**`.
unfoldable pub match_head : Text → (List Text → Bool) → List Text → Bool
match_head p rest [] = false
match_head p rest (s ∷ path) = if glob_match_segment p s then rest path else false

unfoldable pub glob_match_parts : List Text → List Text → Bool
glob_match_parts [] path = is_empty path
glob_match_parts (p ∷ ps) path =
    if list_beq p double_star
    then any_tail (glob_match_parts ps) path
    else match_head p (glob_match_parts ps) path

unfoldable pub glob_matches : Text → Text → Bool
glob_matches pattern_ path =
    if list_beq pattern_ double_star || list_beq pattern_ (double_star ++ slash ∷ star ∷ [])
    then true
    else glob_match_parts (split pattern_) (split path)
