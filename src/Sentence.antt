-- ===== src/Sentence.antt =====
-- crates/tgcryptfs-core/src/sentence: a 256-bit reference as 22 words, twelve bits each. A word is a
-- text; the four word lists are arguments. An index out of range, where the source panics, is the
-- model's error `panic`.
pub mod Bits
pub mod Slices
pub mod Extract
pub mod Lookup
pub mod RoundTrip
pub mod Validation
use Prim.Native.Nat.{bit_and, bit_or}
use tgcryptfs.Crypto.Aead.{Bytes}
use tgcryptfs.Common.Dict.{Dict, lookup, insert, contains_key, list_eq, nat_eq}
use tgcryptfs.Common.{
  ℕ, zero, suc, ◌+◌, ◌-◌, ◌*◌, ◌/◌, ◌%◌, ◌^◌, Bool, true, false, not, ◌&&◌, ◌||◌, Option, none,
  some, List, [], ◌∷◌, ◌++◌, ltb, ◌==◌, if◌then◌else◌, Result, ok, err, ◌>>=◌, ◌>>◌, guard, length,
  take, get_or, replicate,
}

abbrev pub wordlist_size : ℕ
wordlist_size = 4096

abbrev pub bits_per_word : ℕ
bits_per_word = 12

abbrev pub words_per_ref : ℕ
words_per_ref = 22

-- A word, as its characters.
abbrev pub Word : Type 0
Word = Bytes

pub data SentenceError : Type 0 where
  wordlist_too_small panic : SentenceError
  wrong_length : ℕ → SentenceError
  not_found : Word → ℕ → SentenceError

-- `(data[byte_idx] >> bit_idx) & 1 == 1`, within the array; `& 1` is `% 2`.
unfoldable pub test_bit : Bytes → ℕ → Bool
test_bit data_bytes position =
    ltb (position / 8) (length data_bytes)
    && (get_or data_bytes (position / 8) 0 / 2 ^ (7 - position % 8) % 2 == 1)

-- The rounds that are left of `extract_bits`: the bit at `position` is the one at `rounds - 1`.
unfoldable pub extract_loop : Bytes → ℕ → ℕ → ℕ → ℕ
extract_loop data_bytes zero position value = value
extract_loop data_bytes (suc rounds) position value =
    extract_loop data_bytes rounds (position + 1)
      (if test_bit data_bytes position then bit_or value (2 ^ rounds) else value)

unfoldable pub extract_bits : Bytes → ℕ → ℕ → ℕ
extract_bits data_bytes bit_offset count = extract_loop data_bytes count bit_offset 0

-- A write out of bounds changes nothing; the source tests the index before it writes.
abbrev pub set : Bytes → ℕ → ℕ → Bytes
set [] i b = []
set (x ∷ xs) zero b = b ∷ xs
set (x ∷ xs) (suc i) b = x ∷ set xs i b

-- `|= 1 << bit_idx`, or `&= !(1 << bit_idx)` on a byte.
unfoldable pub write_bit : Bool → ℕ → ℕ → ℕ
write_bit true bit_idx b = bit_or b (2 ^ bit_idx)
write_bit false bit_idx b = bit_and b (255 - 2 ^ bit_idx)

unfoldable pub set_bit : Bytes → ℕ → Bool → Bytes
set_bit data_bytes position bit =
    if ltb (position / 8) (length data_bytes)
    then set data_bytes (position / 8)
        (write_bit bit (7 - position % 8) (get_or data_bytes (position / 8) 0))
    else data_bytes

-- The rounds that are left of `set_bits`.
unfoldable pub set_loop : ℕ → ℕ → ℕ → Bytes → Bytes
set_loop value zero position data_bytes = data_bytes
set_loop value (suc rounds) position data_bytes =
    set_loop value rounds (position + 1) (set_bit data_bytes position (value / 2 ^ rounds % 2 == 1))

unfoldable pub set_bits : Bytes → ℕ → ℕ → ℕ → Bytes
set_bits data_bytes bit_offset count value = set_loop value count bit_offset data_bytes

module _ {ℓ} {A : Type ℓ} where
  abbrev pub get_elem? : List A → ℕ → Option A
  get_elem? [] i = none
  get_elem? (x ∷ xs) zero = some x
  get_elem? (x ∷ xs) (suc i) = get_elem? xs i

module _ {A : Type 0} where
  abbrev pub or_panic : Option A → Result SentenceError A
  or_panic none = err panic
  or_panic (some a) = ok a

abbrev pub too_small : List Word → Bool
too_small wl = ltb (length wl) wordlist_size

abbrev pub any_too_small : List (List Word) → Bool
any_too_small [] = false
any_too_small (wl ∷ wls) = too_small wl || any_too_small wls

-- The rounds that are left of the loop of `encode_ref`, from word `i` on.
unfoldable pub encode_loop : List (List Word) → Bytes → ℕ → ℕ → Result SentenceError (List Word)
encode_loop wordlists padded zero i = ok []
encode_loop wordlists padded (suc rounds) i = do
  wordlist ← or_panic (get_elem? wordlists (i % 4))
  word ← or_panic (get_elem? wordlist (extract_bits padded (i * bits_per_word) bits_per_word))
  words ← encode_loop wordlists padded rounds (i + 1)
  ok (word ∷ words)

-- The 32 bytes, padded with a zero.
unfoldable pub encode_ref : Bytes → List (List Word) → Result SentenceError (List Word)
encode_ref data_bytes wordlists =
    if any_too_small wordlists
    then err wordlist_too_small
    else encode_loop wordlists (data_bytes ++ 0 ∷ []) words_per_ref 0

-- `collect` into the map, from the word at `i` on: a word that comes again takes the later index.
unfoldable pub index_words : ℕ → List Word → Dict Word ℕ → Dict Word ℕ
index_words i [] m = m
index_words i (w ∷ ws) m = index_words (i + 1) ws (insert w (i % 2 ^ 16) m)

unfoldable pub build_reverse_lookup : List Word → Dict Word ℕ
build_reverse_lookup wordlist = index_words 0 wordlist []

unfoldable pub decode_loop : List (Dict Word ℕ) → List Word → ℕ → Bytes → Result SentenceError Bytes
decode_loop reverse_lookups [] i padded = ok padded
decode_loop reverse_lookups (word ∷ words) i padded = do
  reverse ← or_panic (get_elem? reverse_lookups (i % 4))
  index ← elim (lookup word reverse) [ none ↦ err (not_found word (i % 4)) | some index ↦ ok index ]
  decode_loop reverse_lookups words (i + 1)
      (set_bits padded (i * bits_per_word) bits_per_word index)

unfoldable pub decode_ref : List Word → List (Dict Word ℕ) → Result SentenceError Bytes
decode_ref words reverse_lookups =
    if not (length words == words_per_ref)
    then err (wrong_length (length words))
    else do padded ← decode_loop reverse_lookups words 0 (replicate 33 0); ok (take 32 padded)

unfoldable pub validate_loop : List (Dict Word ℕ) → List Word → ℕ → Result SentenceError (Unit {0})
validate_loop reverse_lookups [] i = ok tt
validate_loop reverse_lookups (word ∷ words) i = do
  reverse ← or_panic (get_elem? reverse_lookups (i % 4))
  guard (contains_key word reverse) (not_found word (i % 4))
  validate_loop reverse_lookups words (i + 1)

unfoldable pub validate_sentence : List Word → List (Dict Word ℕ) → Result SentenceError (Unit {0})
validate_sentence words reverse_lookups =
    if not (length words == words_per_ref)
    then err (wrong_length (length words))
    else validate_loop reverse_lookups words 0
