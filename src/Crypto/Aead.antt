-- ===== src/Crypto/Aead.antt =====
-- crates/tgcryptfs-core/src/crypto/aead.rs. XChaCha20-Poly1305 itself is the crate chacha20poly1305:
-- a parameter with its documented behaviour. The nonce that `OsRng` draws is an argument.
use tgcryptfs.Common.{
  take-append-drop, ap, ℕ, ◌+◌, ◌≡◌, refl, inl, inr, false, Option, none, some, List, ◌++◌, arith,
  ltb, if◌then◌else◌, Option-cases, Result, ok, err, length, take, drop, length-append,
  take-append_exact, drop-append_exact,
}

abbrev pub Bytes : Type 0
Bytes = List ℕ

-- The cipher, for a key, a nonce, a text and associated data; `none` is the crate's error.
pub record Cipher : Type 0 where
  pub seal : Bytes → Bytes → Bytes → Bytes → Option Bytes
  pub open_sealed : Bytes → Bytes → Bytes → Bytes → Option Bytes
  -- What was sealed opens under the same key, nonce and associated data.
  pub opens :
      (key nonce text aad sealed : Bytes)
      → seal key nonce text aad ≡ some sealed
      → open_sealed key nonce sealed aad ≡ some text
  -- What opens is the sealed form of the text that comes out, since the tag is recomputed.
  pub authentic :
      (key nonce sealed aad text : Bytes)
      → open_sealed key nonce sealed aad ≡ some text
      → seal key nonce text aad ≡ some sealed
  -- The tag adds 16 bytes.
  pub adds_tag :
      (key nonce text aad sealed : Bytes)
      → seal key nonce text aad ≡ some sealed
      → length sealed ≡ length text + 16

pub data AeadError : Type 0 where
  encryption decryption ciphertext_too_short : AeadError

abbrev pub nonce_size : ℕ
nonce_size = 24

abbrev pub tag_size : ℕ
tag_size = 16

module _ (cipher : Cipher) where
  open cipher use {seal, open_sealed}

  unfoldable pub encrypt : Bytes → Bytes → Bytes → Bytes → Result AeadError Bytes
  encrypt nonce key plaintext aad = elim (seal key nonce plaintext aad) [
    | none ↦ err encryption
    | some ciphertext ↦ ok (nonce ++ ciphertext)
  ]

  unfoldable pub decrypt : Bytes → Bytes → Bytes → Result AeadError Bytes
  decrypt key ciphertext aad =
      if ltb (length ciphertext) (nonce_size + tag_size)
      then err ciphertext_too_short
      else elim (open_sealed key (take nonce_size ciphertext) (drop nonce_size ciphertext) aad) [
        | none ↦ err decryption
        | some plaintext ↦ ok plaintext
      ]

module _ (cipher : Cipher) where
  open cipher use {seal, open_sealed}

  -- Inversion of an encryption that succeeds.
  pub encrypt-ok :
      (nonce key plaintext aad out : Bytes)
      → encrypt cipher nonce key plaintext aad ≡ ok out
      → (sealed : Bytes) × (seal key nonce plaintext aad ≡ some sealed) × (out ≡ nonce ++ sealed)
  unfolding encrypt
  encrypt-ok nonce key plaintext aad out h = elim (Option-cases (seal key nonce plaintext aad)) [
    | inl e ↦ absurd (ground arith)
    | inr (sealed, e) ↦ (sealed, e, ground arith)
  ]

  pub length-encrypt :
      (nonce key plaintext aad out : Bytes)
      → encrypt cipher nonce key plaintext aad ≡ ok out
      → length out ≡ length nonce + length plaintext + tag_size
  length-encrypt nonce key plaintext aad out h =
      let (sealed, e, eq) = encrypt-ok nonce key plaintext aad out h in
      rw eq (
        omega (arith, length-append nonce sealed, cipher.adds_tag key nonce plaintext aad sealed e))

  -- With a nonce of 24 bytes, `decrypt` gives back what `encrypt` took, under the same key and
  -- associated data.
  pub decrypt-encrypt :
      (nonce key plaintext aad out : Bytes)
      → length nonce ≡ nonce_size
      → encrypt cipher nonce key plaintext aad ≡ ok out
      → decrypt cipher key out aad ≡ ok plaintext
  unfolding decrypt
  decrypt-encrypt nonce key plaintext aad out sized h =
      let (sealed, e, eq) = encrypt-ok nonce key plaintext aad out h in
      let long : ltb (length out) (nonce_size + tag_size) ≡ false =
        ground (arith, length-encrypt nonce key plaintext aad out h) in
      let opened = cipher.opens key nonce plaintext aad sealed e in
      rw long (
        rw
          (
            eq,
            take-append_exact nonce_size nonce sealed sized,
            drop-append_exact nonce_size nonce sealed sized,
            opened,
          )
          refl)

  -- What `decrypt` accepts is exactly what `encrypt` makes of the text that comes out, with the
  -- first 24 bytes for the nonce.
  encrypt-decrypt :
      (key ciphertext aad plaintext : Bytes)
      → decrypt cipher key ciphertext aad ≡ ok plaintext
      → encrypt cipher (take nonce_size ciphertext) key plaintext aad ≡ ok ciphertext
  unfolding decrypt encrypt
  encrypt-decrypt key ciphertext aad plaintext h =
      let sealed = drop nonce_size ciphertext in
      let nonce = take nonce_size ciphertext in
      let opened : open_sealed key nonce sealed aad ≡ some plaintext = ground arith in
      rw (encrypt, cipher.authentic key nonce sealed aad plaintext opened)
        (ap ok (take-append-drop nonce_size ciphertext))
