-- ===== src/Block/Srb1/RoundTrip.antt =====
-- `decode` of block/srb1.rs takes apart what `encode` puts together.
use mathlib.Core.List.{append_assoc}
use tgcryptfs.Crypto.Aead.{
  Bytes, Cipher, nonce_size, tag_size, encrypt, decrypt, length-encrypt, decrypt-encrypt,
}
use tgcryptfs.Block.Srb1.{
  flag_compressed, map_cipher_error, AeadError, bit_and, to_le_bytes, from_le_bytes, slice,
  header_tail, header_size, check_header, magic, length_mismatch, encode, decode,
}
use tgcryptfs.Common.{
  ℕ, ◌+◌, ◌%◌, ◌≤◌, ◌<◌, ◌≡◌, refl, Bool, true, false, not, ◌++◌, arith, ltb, ◌==◌, if◌then◌else◌,
  u32_mod, Result, ok, err, ◌>>=◌, length, drop, get_or, length-append, take-append_exact,
  drop-append_exact,
}

from_le-to_le : (n : ℕ) → n < u32_mod → from_le_bytes (to_le_bytes n) ≡ n
from_le-to_le n h = omega arith

compressed_flag :
    (compressed : Bool) → not (bit_and (if compressed then 1 else 0) 1 == 0) ≡ compressed
compressed_flag true = refl
compressed_flag false = refl

-- A block with a header of the right length, in front of `encrypted`.
module _ (epoch len : ℕ) (compressed : Bool) (hash encrypted : Bytes)
    (sized : length hash ≡ 32) where
  abbrev header : Bytes
  header = header_tail epoch compressed hash len

  abbrev block : Bytes
  block = magic ++ header ++ encrypted

  payload : drop header_size block ≡ encrypted
  unfolding header_tail
  payload =
      drop-append_exact 36 (hash ++ to_le_bytes len) encrypted
        (omega (arith, length-append hash (to_le_bytes len)))

  bound_header : slice 4 header_size block ≡ header
  unfolding header_tail
  bound_header =
      rw
        (take-append_exact 36 (hash ++ to_le_bytes len) encrypted
          (omega (arith, length-append hash (to_le_bytes len))))
        refl

  stored_hash : slice 10 42 block ≡ hash
  unfolding header_tail
  stored_hash = rw append_assoc (take-append_exact 32 hash (to_le_bytes len ++ encrypted) sized)

  stored_len : len < u32_mod → from_le_bytes (slice 42 46 block) ≡ len
  unfolding header_tail
  stored_len small = rw append_assoc (
      rw (drop-append_exact 32 hash (to_le_bytes len ++ encrypted) sized) (from_le-to_le len small))

  stored_epoch : epoch < u32_mod → from_le_bytes (slice 5 9 block) ≡ epoch
  unfolding header_tail
  stored_epoch small = from_le-to_le epoch small

  stored_flag : not (bit_and (get_or block 9 0) flag_compressed == 0) ≡ compressed
  unfolding header_tail
  stored_flag = compressed_flag compressed

  header_passes : nonce_size + tag_size ≤ length encrypted → check_header block ≡ ok tt
  unfolding header_tail check_header
  header_passes long =
      let enough : 36 + length encrypted ≡ length ((hash ++ to_le_bytes len) ++ encrypted) = omega (
        arith,
        length-append (hash ++ to_le_bytes len) encrypted,
        length-append hash (to_le_bytes len),
      ) in
      ground arith

module _ (cipher : Cipher) where
  encode-ok :
      (nonce key : Bytes) (epoch : ℕ) (plaintext : Bytes) (compressed : Bool)
      (content_hash aad block_bytes : Bytes)
      → encode cipher nonce key epoch plaintext compressed content_hash aad ≡ ok block_bytes
      → (encrypted : Bytes) × (encrypt cipher nonce key plaintext
            (aad ++ header_tail epoch compressed content_hash (length plaintext % u32_mod))
          ≡ ok encrypted)
        × (block_bytes
            ≡ magic
              ++ header_tail epoch compressed content_hash (length plaintext % u32_mod)
              ++ encrypted)
  unfolding encode
  encode-ok nonce key epoch plaintext compressed content_hash aad block_bytes h =
      go (encrypt cipher nonce key plaintext (aad ++ head)) refl h
    where
      head : Bytes
      head = header_tail epoch compressed content_hash (length plaintext % u32_mod)

      go :
          (r : Result AeadError Bytes)
          → encrypt cipher nonce key plaintext (aad ++ head) ≡ r
          → (map_cipher_error r >>= λ e. ok (magic ++ head ++ e)) ≡ ok block_bytes
          → (encrypted : Bytes) × (encrypt cipher nonce key plaintext (aad ++ head) ≡ ok encrypted)
            × (block_bytes ≡ magic ++ head ++ encrypted)
      go (ok e) eq k = (e, eq, ground arith)
      go (err e) eq k = absurd (ground arith)

  decode_lem :
      (key : Bytes) (epoch : ℕ) (plaintext : Bytes) (compressed : Bool)
      (content_hash aad encrypted : Bytes) (len : ℕ)
      → len < u32_mod
      → length content_hash ≡ 32
      → epoch < u32_mod
      → nonce_size + tag_size ≤ length encrypted
      → decrypt cipher key encrypted (aad ++ header_tail epoch compressed content_hash len)
        ≡ ok plaintext
      → decode cipher key (magic ++ header_tail epoch compressed content_hash len ++ encrypted) aad
        ≡ (if length plaintext == len
            then ok (record {
              epoch = epoch;
              compressed = compressed;
              content_hash = content_hash;
              plaintext_len = len;
              plaintext = plaintext;
            })
            else err length_mismatch)
  unfolding decode
  decode_lem key epoch plaintext compressed content_hash aad encrypted len fits sized small long d =
      rw (header_passes epoch len compressed content_hash encrypted sized long) (
        rw (bound_header epoch len compressed content_hash encrypted sized) (
          rw (payload epoch len compressed content_hash encrypted sized, d)
            (rw (stored_len epoch len compressed content_hash encrypted sized fits) (
              rw (stored_epoch epoch len compressed content_hash encrypted sized small) (
                rw (stored_flag epoch len compressed content_hash encrypted sized) (
                  rw (stored_hash epoch len compressed content_hash encrypted sized)
                    (ground arith)))))))

  -- `encode` with a 24-byte nonce, a 32-byte content hash and an epoch below 2^32, when the cipher
  -- does not fail, makes a block from which `decode` under the same key and associated data reads
  -- every field back, if the plaintext has fewer than 2^32 bytes; of a longer plaintext the header
  -- keeps the length modulo 2^32, and `decode` refuses the block for its length.
  pub decode-encode :
      (nonce key : Bytes) (epoch : ℕ) (plaintext : Bytes) (compressed : Bool)
      (content_hash aad block_bytes : Bytes)
      → length nonce ≡ nonce_size
      → length content_hash ≡ 32
      → epoch < u32_mod
      → encode cipher nonce key epoch plaintext compressed content_hash aad ≡ ok block_bytes
      → decode cipher key block_bytes aad ≡ (
          if ltb (length plaintext) u32_mod
          then ok (record {
            epoch = epoch;
            compressed = compressed;
            content_hash = content_hash;
            plaintext_len = length plaintext;
            plaintext = plaintext;
          })
          else err length_mismatch)
  unfolding decode encode
  decode-encode nonce key epoch plaintext compressed content_hash aad block_bytes n32 h32 small h =
      let (encrypted, e, shape) =
        encode-ok nonce key epoch plaintext compressed content_hash aad block_bytes h in
      let bound = aad ++ header_tail epoch compressed content_hash (length plaintext % u32_mod) in
      let long : nonce_size + tag_size ≤ length encrypted =
        omega (arith, length-encrypt cipher nonce key plaintext bound encrypted e) in
      rw shape (
        rw
          (decode_lem key epoch plaintext compressed content_hash aad encrypted
            (length plaintext % u32_mod) (omega arith) h32 small long
            (decrypt-encrypt cipher nonce key plaintext bound encrypted n32 e))
          (ground arith))
