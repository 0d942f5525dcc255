-- ===== src/Tests/Blocks.antt =====
-- The block format, the cipher's wrapper and the deduplication index on short inputs.
use tgcryptfs.Common.Dict.{list_eq, nat_eq}
use tgcryptfs.Crypto.Aead.{Bytes, encrypt, decrypt}
use tgcryptfs.Block.Srb1.{encode, decode}
use tgcryptfs.Block.Srb1.RoundTrip.{decode-encode}
use tgcryptfs.Block.Dedup.{empty_index, insert_block, release}
use tgcryptfs.Block.Dedup.Counting.{
  refs, HasRefs, Call, take_ref, drop_ref, run, count_calls, run-count_calls,
}
use tgcryptfs.Tests.Toy.{toy, nonce24, hash32}
use tgcryptfs.Common.{
  ◌+◌, ◌<◌, ◌≡◌, refl, true, false, List, [], ◌∷◌, ◌++◌, arith, u32_mod, Result, ok, err, replicate,
}

abbrev key : Bytes
key = 1 ∷ 2 ∷ []

abbrev text : Bytes
text = b'h' ∷ b'i' ∷ []

abbrev sealed : Bytes
sealed = nonce24 ++ replicate 16 (3 + 168 + 209 + 4) ++ text

text-sealed : encrypt toy nonce24 key text (4 ∷ []) ≡ ok sealed
unfolding encrypt
text-sealed = refl

text_opened : decrypt toy key sealed (4 ∷ []) ≡ ok text
unfolding decrypt
text_opened = refl

-- The block of the text: its encoding is read back.
abbrev result_or : {E A : Type 0} → Result E A → A → A
result_or (ok a) d = a
result_or (err e) d = d

block : Bytes
unfolding encode encrypt
block = result_or (encode toy nonce24 key 5 text true hash32 (6 ∷ [])) []

block_encoded : encode toy nonce24 key 5 text true hash32 (6 ∷ []) ≡ ok block
unfolding encode encrypt block
block_encoded = refl

decode-encode_example :
    decode toy key block (6 ∷ [])
    ≡ ok (record {
      epoch = 5;
      compressed = true;
      content_hash = hash32;
      plaintext_len = 2;
      plaintext = text;
    })
decode-encode_example =
    decode-encode toy nonce24 key 5 text true hash32 (6 ∷ []) block refl refl (omega arith)
      block_encoded

-- Two references to one hash, and two releases.
abbrev calls : List Call
calls = take_ref hash32 text ∷ take_ref hash32 key ∷ drop_ref hash32 ∷ drop_ref hash32 ∷ []

flags_of_calls : (run calls empty_index).1 ≡ false ∷ true ∷ []
unfolding run empty_index insert_block release
flags_of_calls = refl

empty-HasRefs : HasRefs empty_index
unfolding empty_index
empty-HasRefs h e at = absurd (ground arith)

empty_small : (h : Bytes) → refs empty_index h + 4 < u32_mod
unfolding empty_index
empty_small h = omega arith

run-count_calls_example :
    (refs (run calls empty_index).0 ≡ (count_calls calls (refs empty_index)).0)
    × ((run calls empty_index).1 ≡ (count_calls calls (refs empty_index)).1)
    × HasRefs (run calls empty_index).0
run-count_calls_example = run-count_calls calls empty_index empty-HasRefs empty_small
