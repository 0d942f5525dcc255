-- ===== src/Sentence/RoundTrip.antt =====
-- What `decode_ref` makes of the words of `encode_ref`.
use mathlib.Core.Path.{subst}
use tgcryptfs.Crypto.Aead.{Bytes}
use tgcryptfs.Common.Dict.{Dict, lookup, list_eq, nat_eq}
use tgcryptfs.Sentence.{
  Word, get_elem?, any_too_small, extract_bits, set_bits, encode_loop, encode_ref,
  build_reverse_lookup, decode_loop, decode_ref,
}
use tgcryptfs.Sentence.Bits.{eq_of_bits}
use tgcryptfs.Sentence.Extract.{extract_bits-bit, extract_bits-lt}
use tgcryptfs.Sentence.Slices.{bit_at, AreBytes, AreBytes-get_or, set_bits-bits}
use tgcryptfs.Sentence.Lookup.{AreDistinct, get_elem?_inside, lookup-build_reverse_lookup}
use tgcryptfs.Common.{
  eq_of_get_or, ℕ, zero, suc, ◌+◌, ◌-◌, ◌*◌, ◌/◌, ◌%◌, ◌^◌, ◌≤◌, ◌<◌, ◌≡◌, refl, sym, ap, ◌∙◌, inl,
  inr, true, false, ◌&&◌, some, List, [], ◌∷◌, ◌++◌, map, arith, ltb, leb, ◌==◌, if◌then◌else◌,
  ==_iff, Bool-cases, ok, length, get_or, replicate, length-append, All, All-append,
  take-append_exact,
}

-- A word list that has 4096 words at least, no two of them the same.
abbrev pub IsWordlist : List Word → Type 0
IsWordlist ws = (4096 ≤ length ws) × AreDistinct ws

get_elem?-map :
    {A B : Type 0} (f : A → B) (xs : List A) (i : ℕ) (x : A)
    → get_elem? xs i ≡ some x
    → get_elem? (map f xs) i ≡ some (f x)
get_elem?-map f [] i x h = absurd (ground arith)
get_elem?-map f (y ∷ ys) zero x h = ground arith
get_elem?-map f (y ∷ ys) (suc i) x h = get_elem?-map f ys i x h

All-get_elem? :
    {A : Type 0} (P : A → Type 0) (xs : List A) (i : ℕ) (x : A)
    → All P xs
    → get_elem? xs i ≡ some x
    → P x
All-get_elem? P [] i x all h = absurd (ground arith)
All-get_elem? P (y ∷ ys) zero x all h = subst P (ground arith) all.0
All-get_elem? P (y ∷ ys) (suc i) x all h = All-get_elem? P ys i x all.1 h

-- Twelve bits written to where they were read, behind bits that are there already.
carried :
    (i j index : ℕ) (padded acc next : Bytes)
    → length padded ≡ 33
    → i < 22
    → extract_bits padded (i * 12) 12 ≡ index
    → bit_at next j ≡ (
        if leb (i * 12) j && ltb j (i * 12 + 12)
        then index / 2 ^ (i * 12 + 12 - 1 - j) % 2
        else bit_at acc j)
    → (if leb (12 * (i + 1)) j then bit_at padded j else bit_at next j)
      ≡ (if leb (12 * i) j then bit_at padded j else bit_at acc j)
carried i j index padded acc next size small read wrote = elim (Bool-cases (leb (12 * (i + 1)) j)) [
  | inl e ↦ ground arith
  | inr e ↦ elim (Bool-cases (leb (12 * i) j)) [
    | inr f ↦ ground arith
    | inl f ↦
        let k = j - i * 12 in
        let place : i * 12 + 12 - 1 - j ≡ 11 - k = ground arith in
        let back : i * 12 + k ≡ j = ground arith in
        let bit : index / 2 ^ (11 - k) % 2 ≡ bit_at padded j =
          subst (λ x. x / 2 ^ (11 - k) % 2 ≡ bit_at padded j) read
            (extract_bits-bit padded (i * 12) k (omega (arith, size)) (ground arith)
              ∙ ap (bit_at padded) back) in
        let wrote' : bit_at next j ≡ index / 2 ^ (11 - k) % 2 =
          wrote
          ∙ subst
              (λ m.
                (if leb (i * 12) j && ltb j (i * 12 + 12) then index / 2 ^ m % 2 else bit_at acc j)
                ≡ index / 2 ^ (11 - k) % 2)
              (sym place) (ground arith) in
        rw (e, f) (wrote' ∙ bit)
  ]
]

module _ (wordlists : List (List Word)) (four : length wordlists ≡ 4)
    (good : All IsWordlist wordlists) where
  not_small : (wls : List (List Word)) → All IsWordlist wls → any_too_small wls ≡ false
  not_small [] all = refl
  not_small (wl ∷ wls) all = ground (arith, all.0.0, not_small wls all.1)

  abbrev reverse_lookups : List (Dict Word ℕ)
  reverse_lookups = map build_reverse_lookup wordlists

  -- The word for an index, which is found again.
  word_at :
      (i index : ℕ)
      → index < 4096
      → (wl : List Word) × (w : Word) × (get_elem? wordlists (i % 4) ≡ some wl)
        × (get_elem? wl index ≡ some w)
        × (get_elem? reverse_lookups (i % 4) ≡ some (build_reverse_lookup wl))
        × (lookup w (build_reverse_lookup wl) ≡ some index)
  word_at i index small =
      let (wl, here) = get_elem?_inside wordlists (i % 4) (omega (arith, four)) in
      let ok_list : IsWordlist wl = All-get_elem? IsWordlist wordlists (i % 4) wl good here in
      let (w, there) = get_elem?_inside wl index (omega (arith, ok_list.0)) in
      (
        wl,
        w,
        here,
        there,
        get_elem?-map build_reverse_lookup wordlists (i % 4) wl here,
        lookup-build_reverse_lookup w index wl ok_list.1 small there,
      )

  -- From word `i` on, the words are found again, and carry the bits over.
  loops :
      (padded : Bytes) (rounds i : ℕ) (acc : Bytes)
      → length padded ≡ 33
      → i + rounds ≡ 22
      → length acc ≡ 33
      → AreBytes acc
      → (words : List Word) × (out : Bytes) × (encode_loop wordlists padded rounds i ≡ ok words)
        × (length words ≡ rounds)
        × (decode_loop reverse_lookups words i acc ≡ ok out)
        × (length out ≡ 33)
        × AreBytes out
        × ((j : ℕ)
            → j < 264
            → bit_at out j ≡ (if leb (12 * i) j then bit_at padded j else bit_at acc j))
  unfolding encode_loop decode_loop
  loops padded zero i acc size here size' bytes =
      ([], acc, refl, refl, refl, size', bytes, λ j h. ground arith)
  loops padded (suc rounds) i acc size here size' bytes =
      let index = extract_bits padded (i * 12) 12 in
      let (wl, w, in_lists, in_list, in_reverse, found) =
        word_at i index (extract_bits-lt padded (i * 12) (omega (arith, size))) in
      let next = set_bits acc (i * 12) 12 index in
      let (size1, bytes1, bits1) =
        set_bits-bits index 12 (i * 12) acc bytes (omega (arith, size')) in
      let (words, out, encoded, many, decoded, size2, bytes2, bits2) =
        loops padded rounds (i + 1) next size (omega arith) (size1 ∙ size') bytes1 in
      (
        w ∷ words,
        out,
        rw (in_lists, in_list, encoded) refl,
        omega (arith, many),
        rw (in_reverse, found) decoded,
        size2,
        bytes2,
        λ j h. bits2 j h ∙ carried i j index padded acc next size (omega arith) refl (bits1 j),
      )

-- Arrays of 33 bytes with the same 264 bits are the same.
eq_of_all_bits :
    (xs ys : Bytes)
    → length xs ≡ 33
    → length ys ≡ 33
    → AreBytes xs
    → AreBytes ys
    → ((j : ℕ) → j < 264 → bit_at xs j ≡ bit_at ys j)
    → xs ≡ ys
eq_of_all_bits xs ys sx sy bx by_ same = eq_of_get_or 0 xs ys (sx ∙ sym sy) (λ k small.
    eq_of_bits (get_or xs k 0) (get_or ys k 0) (AreBytes-get_or xs k bx) (AreBytes-get_or ys k by_)
      (λ m low.
        let byte : (8 * k + (7 - m)) / 8 ≡ k = omega arith in
        let bit : 7 - (8 * k + (7 - m)) % 8 ≡ m = omega arith in
        subst (λ q. get_or xs q 0 / 2 ^ m % 2 ≡ get_or ys q 0 / 2 ^ m % 2) byte
          (subst
            (λ q.
              get_or xs ((8 * k + (7 - m)) / 8) 0 / 2 ^ q % 2
              ≡ get_or ys ((8 * k + (7 - m)) / 8) 0 / 2 ^ q % 2)
            bit (same (8 * k + (7 - m)) (omega (arith, sx))))))

-- For four word lists of 4096 distinct words at least, 32 bytes are encoded as 22 words, and these
-- words, with the reverse lookups of the same lists, are decoded to the same bytes.
pub decode_ref-encode_ref :
    (data_bytes : Bytes) (wordlists : List (List Word))
    → length data_bytes ≡ 32
    → AreBytes data_bytes
    → length wordlists ≡ 4
    → All IsWordlist wordlists
    → (words : List Word) × (encode_ref data_bytes wordlists ≡ ok words)
      × (length words ≡ 22)
      × (decode_ref words (map build_reverse_lookup wordlists) ≡ ok data_bytes)
unfolding encode_ref decode_ref
decode_ref-encode_ref data_bytes wordlists size bytes four good =
    let padded = data_bytes ++ 0 ∷ [] in
    let size' : length padded ≡ 33 = omega (arith, length-append data_bytes (0 ∷ []), size) in
    let padded_bytes : AreBytes padded =
      All-append (λ b. b < 256) data_bytes (0 ∷ []) bytes (omega arith, tt) in
    let (words, out, encoded, many, decoded, size_out, out_bytes, bits) =
      loops wordlists four good padded 22 0 (replicate 33 0) size' (omega arith) (omega arith)
        (omega arith) in
    let same : out ≡ padded =
      eq_of_all_bits out padded size_out size' out_bytes padded_bytes
        (λ j h. bits j h ∙ ground arith) in
    let counted : (length words == 22) ≡ true = (==_iff (length words) 22).1 many in
    (
      words,
      rw (not_small wordlists four good wordlists good) encoded,
      many,
      rw (counted, decoded) (ap ok (rw same (take-append_exact 32 data_bytes (0 ∷ []) size))),
    )
