-- ===== src/Policy/Strings.antt =====
-- The methods of `str` and `char` that crates/tgcryptfs-core/src/policy/parser.rs calls, on a text as
-- the list of its characters.
use tgcryptfs.Policy.Glob.{Text}
use tgcryptfs.Common.{
  ℕ, ◌+◌, ◌-◌, ◌*◌, Bool, true, false, ◌&&◌, ◌||◌, Option, none, some, List, [], ◌∷◌, ltb, leb,
  ◌==◌, if◌then◌else◌, u64_mod, is_empty,
}

abbrev pub map_option : {A B : Type 0} → (A → B) → Option A → Option B
map_option f none = none
map_option f (some a) = some (f a)

-- `char::is_whitespace`
unfoldable pub is_whitespace : ℕ → Bool
is_whitespace c =
    leb 9 c && leb c 13
    || c == 32
    || c == 0x85
    || c == 0xA0
    || c == 0x1680
    || leb 0x2000 c && leb c 0x200A
    || c == 0x2028
    || c == 0x2029
    || c == 0x202F
    || c == 0x205F
    || c == 0x3000

unfoldable pub trim_start : Text → Text
trim_start [] = []
trim_start (c ∷ cs) = let rest = trim_start cs in if is_whitespace c then rest else c ∷ cs

unfoldable pub trim_end : Text → Text
trim_end [] = []
trim_end (c ∷ cs) =
    let rest = trim_end cs in if is_empty rest && is_whitespace c then [] else c ∷ rest

abbrev pub trim : Text → Text
trim s = trim_end (trim_start s)

unfoldable pub strip_prefix : Text → Text → Option Text
strip_prefix [] s = some s
strip_prefix (p ∷ ps) [] = none
strip_prefix (p ∷ ps) (c ∷ cs) = let rest = strip_prefix ps cs in if c == p then rest else none

-- For a suffix of one character.
unfoldable pub strip_suffix : ℕ → Text → Option Text
strip_suffix p [] = none
strip_suffix p (c ∷ []) = if c == p then some [] else none
strip_suffix p (c ∷ d ∷ cs) = map_option (λ rest. c ∷ rest) (strip_suffix p (d ∷ cs))

-- What stands before the first such character, and after it.
unfoldable pub split_once : ℕ → Text → Option (Text × Text)
split_once p [] = none
split_once p (c ∷ cs) =
    let rest = split_once p cs in
    if c == p then some ([], cs) else map_option (λ (x : Text × Text). (c ∷ x.0, x.1)) rest

abbrev pub add_to_line : ℕ → List Text → List Text
add_to_line c [] = (c ∷ []) ∷ []
add_to_line c (line ∷ rest) = (c ∷ line) ∷ rest

-- `lines`; the carriage return that it takes off an end is left to `trim`.
unfoldable pub lines : Text → List Text
lines [] = []
lines (c ∷ cs) = let rest = lines cs in if c == 10 then [] ∷ rest else add_to_line c rest

unfoldable pub parse_digits : ℕ → Text → Option ℕ
parse_digits n [] = some n
parse_digits n (c ∷ cs) =
    let next = n * 10 + (c - 48) in
    let rest = parse_digits next cs in
    if leb 48 c && leb c 57 && ltb next u64_mod then rest else none

-- `parse::<u64>`, which takes a leading plus sign.
unfoldable pub parse_u64 : Text → Option ℕ
parse_u64 [] = none
parse_u64 (c ∷ cs) =
    if c == b'+' then (if is_empty cs then none else parse_digits 0 cs) else parse_digits 0 (c ∷ cs)

abbrev pub utf8_len : ℕ → ℕ
utf8_len c = if ltb c 0x80 then 1 else if ltb c 0x800 then 2 else if ltb c 0x10000 then 3 else 4

-- Whether a number of bytes ends at a character, or beyond the text.
unfoldable pub at_boundary : ℕ → Text → Bool
at_boundary n [] = true
at_boundary n (c ∷ cs) =
    let rest = at_boundary (n - utf8_len c) cs in
    if n == 0 then true else if leb (utf8_len c) n then rest else false
