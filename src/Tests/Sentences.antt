-- ===== src/Tests/Sentences.antt =====
-- Word lists of numbered words, and a reference over them.
use tgcryptfs.Common.Dict.{list_eq, nat_eq}
use tgcryptfs.Sentence.{
  Word, test_bit, extract_loop, extract_bits, write_bit, set_bit, set_loop, set_bits, get_elem?,
  encode_ref, build_reverse_lookup, index_words, decode_ref, validate_sentence,
}
use tgcryptfs.Sentence.Lookup.{AreDistinct}
use tgcryptfs.Sentence.RoundTrip.{IsWordlist, decode_ref-encode_ref}
use tgcryptfs.Sentence.Validation.{validate_sentence-decode_ref}
use tgcryptfs.Common.{
  ℕ, zero, suc, ◌+◌, ◌≡◌, refl, ap, ◌∙◌, some, List, [], ◌∷◌, map, arith, ok, is_ok, length,
  replicate,
}

twelve_bits : extract_bits (0xab ∷ 0xcd ∷ 0xef ∷ []) 4 12 ≡ 0xbcd
unfolding extract_bits extract_loop test_bit
twelve_bits = refl

twelve_back : set_bits (0xa0 ∷ 0 ∷ 0xef ∷ []) 4 12 0xbcd ≡ 0xab ∷ 0xcd ∷ 0xef ∷ []
unfolding set_bits set_loop set_bit write_bit
twelve_back = refl

-- A word that comes twice keeps the later index.
later_index : build_reverse_lookup ((1 ∷ []) ∷ (1 ∷ []) ∷ []) ≡ (1 ∷ [], 1) ∷ []
unfolding build_reverse_lookup index_words
later_index = refl

unfoldable pub numbered : ℕ → ℕ → List Word
numbered zero i = []
numbered (suc n) i = (i ∷ []) ∷ numbered n (i + 1)

length-numbered : (n i : ℕ) → length (numbered n i) ≡ n
unfolding numbered
length-numbered zero i = refl
length-numbered (suc n) i = omega (arith, length-numbered n (i + 1))

get_elem?-numbered : (n i k : ℕ) (w : Word) → get_elem? (numbered n i) k ≡ some w → w ≡ (i + k) ∷ []
unfolding numbered
get_elem?-numbered zero i k w h = absurd (ground arith)
get_elem?-numbered (suc n) i zero w h = ground arith
get_elem?-numbered (suc n) i (suc k) w h =
    get_elem?-numbered n (i + 1) k w h ∙ ap (λ m. m ∷ []) (omega arith)

numbered-AreDistinct : (n : ℕ) → AreDistinct (numbered n 0)
numbered-AreDistinct n i j w p q =
    ground (arith, get_elem?-numbered n 0 i w p, get_elem?-numbered n 0 j w q)

pub numbered-IsWordlist : IsWordlist (numbered 4096 0)
numbered-IsWordlist = (omega (arith, length-numbered 4096 0), numbered-AreDistinct 4096)

abbrev pub lists : List (List Word)
lists = replicate 4 (numbered 4096 0)

decode_ref-encode_ref_example :
    (words : List Word) × (encode_ref (replicate 32 0xa5) lists ≡ ok words)
    × (length words ≡ 22)
    × (decode_ref words (map build_reverse_lookup lists) ≡ ok (replicate 32 0xa5))
decode_ref-encode_ref_example =
    decode_ref-encode_ref (replicate 32 0xa5) lists refl (omega arith) refl
      (numbered-IsWordlist, (numbered-IsWordlist, (numbered-IsWordlist, (numbered-IsWordlist, tt))))

validate_sentence-decode_ref_example :
    is_ok (validate_sentence ((1 ∷ []) ∷ []) []) ≡ is_ok (decode_ref ((1 ∷ []) ∷ []) [])
validate_sentence-decode_ref_example = validate_sentence-decode_ref ((1 ∷ []) ∷ []) []
