-- ===== src/Sentence/Validation.antt =====
-- `validate_sentence` against `decode_ref`.
use tgcryptfs.Crypto.Aead.{Bytes}
use tgcryptfs.Common.Dict.{Dict, lookup, contains_key, list_eq, nat_eq}
use tgcryptfs.Sentence.{
  Word, get_elem?, set_bits, bits_per_word, words_per_ref, decode_loop, decode_ref, validate_loop,
  validate_sentence,
}
use tgcryptfs.Common.{
  ℕ, ◌+◌, ◌*◌, ◌%◌, ◌≡◌, refl, ◌∙◌, inl, inr, true, false, List, [], ◌∷◌, arith, ◌==◌, Bool-cases,
  Option-cases, is_ok, length, replicate, Result-cases,
}

loops_agree :
    (reverse_lookups : List (Dict Word ℕ)) (words : List Word) (i : ℕ) (padded : Bytes)
    → is_ok (validate_loop reverse_lookups words i)
      ≡ is_ok (decode_loop reverse_lookups words i padded)
unfolding validate_loop decode_loop
loops_agree reverse_lookups [] i padded = refl
loops_agree reverse_lookups (word ∷ words) i padded =
    elim (Option-cases (get_elem? reverse_lookups (i % 4))) [
      | inl e ↦ rw e refl
      | inr (reverse, e) ↦ elim (Option-cases (lookup word reverse)) [
        | inl f ↦
            let gone : contains_key word reverse ≡ false = ground arith in rw (e, gone, f) refl
        | inr (index, f) ↦
            let there : contains_key word reverse ≡ true = ground arith in
            rw (e, there, f)
              (loops_agree reverse_lookups words (i + 1)
                (set_bits padded (i * bits_per_word) bits_per_word index))
      ]
    ]

-- `validate_sentence` accepts exactly the words that `decode_ref` decodes, with the same lookups.
pub validate_sentence-decode_ref :
    (words : List Word) (reverse_lookups : List (Dict Word ℕ))
    → is_ok (validate_sentence words reverse_lookups) ≡ is_ok (decode_ref words reverse_lookups)
unfolding validate_sentence decode_ref
validate_sentence-decode_ref words reverse_lookups =
    elim (Bool-cases (length words == words_per_ref)) [
      | inr e ↦ rw e refl
      | inl e ↦ rw e (
          loops_agree reverse_lookups words 0 (replicate 33 0)
          ∙ elim (Result-cases (decode_loop reverse_lookups words 0 (replicate 33 0))) [
            | inl (out, f) ↦ rw f refl
            | inr (e', f) ↦ rw f refl
          ])
    ]
