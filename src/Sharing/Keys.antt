-- ===== src/Sharing/Keys.antt =====
-- crates/tgcryptfs-sharing/src/key_exchange.rs, and crates/tgcryptfs-core/src/crypto/mlkem.rs on
-- which it stands. ML-KEM-768 itself is the crate ml_kem: a parameter with its documented sizes and
-- correctness. The random bytes that it draws are an argument.
use tgcryptfs.Crypto.Aead.{Bytes, Cipher, nonce_size, encrypt, decrypt, decrypt-encrypt}
use tgcryptfs.Sharing.{SharingError, key_exchange, crypto}
use tgcryptfs.Common.{
  ℕ, ◌≡◌, sym, inl, inr, not, Option, none, some, arith, ◌==◌, if◌then◌else◌, Option-cases, Result,
  ok, err, ◌>>=◌, length, Result-cases,
}

-- The keys and the ciphertext in their encoded form; `none` is the crate's error.
pub record Kem : Type 0 where
  pub generate : ℕ → Bytes × Bytes
  pub encapsulate : ℕ → Bytes → Option (Bytes × Bytes)
  pub decapsulate : Bytes → Bytes → Option Bytes
  pub ek_size : ℕ
  pub dk_size : ℕ
  pub ct_size : ℕ
  pub generate_sizes :
      (n : ℕ) → (length (generate n).0 ≡ dk_size) × (length (generate n).1 ≡ ek_size)
  -- A ciphertext and a shared secret have their sizes.
  pub encapsulate_sizes :
      (n : ℕ) (ek ct secret : Bytes)
      → encapsulate n ek ≡ some (ct, secret)
      → (length ct ≡ ct_size) × (length secret ≡ 32)
  -- Who holds the decapsulation key of the pair recovers the shared secret.
  pub agrees :
      (n m : ℕ) (ct secret : Bytes)
      → encapsulate m (generate n).1 ≡ some (ct, secret)
      → decapsulate (generate n).0 ct ≡ some secret

pub data CoreError : Type 0 where
  invalid_key encryption decryption : CoreError

pub record UserKeyPair : Type 0 where
  pub decapsulation_key : Bytes
  pub encapsulation_key : Bytes

pub record WrappedKey : Type 0 where
  pub kem_ciphertext : Bytes
  pub encrypted_key : Bytes

module _ (kem : Kem) where
  unfoldable pub generate_keypair : ℕ → UserKeyPair
  generate_keypair n = record {
    decapsulation_key = (kem.generate n).0;
    encapsulation_key = (kem.generate n).1;
  }

  -- The shared secret and the ciphertext.
  unfoldable pub encapsulate : ℕ → Bytes → Result CoreError (Bytes × Bytes)
  encapsulate n ek =
      if not (length ek == kem.ek_size)
      then err invalid_key
      else elim (kem.encapsulate n ek) [ none ↦ err encryption | some out ↦ ok (out.1, out.0) ]

  unfoldable pub decapsulate : Bytes → Bytes → Result CoreError Bytes
  decapsulate dk ct =
      if not (length dk == kem.dk_size)
      then err invalid_key
      else if not (length ct == kem.ct_size)
      then err invalid_key
      else elim (kem.decapsulate dk ct) [ none ↦ err decryption | some secret ↦ ok secret ]

abbrev pub or_error : {E A : Type 0} → SharingError → Result E A → Result SharingError A
or_error e (ok a) = ok a
or_error e (err _) = err e

module _ (kem : Kem) (cipher : Cipher) where
  unfoldable pub wrap_key_for_user :
      ℕ → Bytes → Bytes → Bytes → Bytes → Result SharingError WrappedKey
  wrap_key_for_user n nonce data_key recipient_ek aad = do
    out ← or_error key_exchange (encapsulate kem n recipient_ek)
    encrypted_key ← or_error crypto (encrypt cipher nonce out.0 data_key aad)
    ok (record { kem_ciphertext = out.1; encrypted_key = encrypted_key })

  unfoldable pub unwrap_key : WrappedKey → Bytes → Bytes → Result SharingError Bytes
  unwrap_key wrapped recipient_dk aad = do
    shared_secret ← or_error key_exchange (decapsulate kem recipient_dk wrapped.kem_ciphertext)
    key_bytes ← or_error crypto (decrypt cipher shared_secret wrapped.encrypted_key aad)
    if not (length key_bytes == 32) then err crypto else ok key_bytes

module _ (kem : Kem) (cipher : Cipher) where
  -- A data key of 32 bytes that is wrapped, with a nonce of 24 bytes, for the encapsulation key of a
  -- generated pair is unwrapped with the pair's decapsulation key and the same associated data.
  pub unwrap_key-wrap_key_for_user :
      (n m : ℕ) (nonce data_key aad : Bytes) (wrapped : WrappedKey)
      → length nonce ≡ nonce_size
      → length data_key ≡ 32
      → wrap_key_for_user kem cipher m nonce data_key (generate_keypair kem n).encapsulation_key aad
        ≡ ok wrapped
      → unwrap_key kem cipher wrapped (generate_keypair kem n).decapsulation_key aad ≡ ok data_key
  unfolding wrap_key_for_user unwrap_key generate_keypair encapsulate decapsulate
  unwrap_key-wrap_key_for_user n m nonce data_key aad wrapped sized long h =
      elim (Option-cases (kem.encapsulate m (kem.generate n).1)) [
        | inl e ↦ absurd (ground arith)
        | inr ((ct, secret), e) ↦ elim (Result-cases (encrypt cipher nonce secret data_key aad)) [
          | inr (_, f) ↦ absurd (ground arith)
          | inl (sealed, f) ↦
              let (long_dk, long_ek) = kem.generate_sizes n in
              let (long_ct, _) = kem.encapsulate_sizes m (kem.generate n).1 ct secret e in
              let wraps : record { kem_ciphertext = ct; encrypted_key = sealed } ≡ wrapped =
                ground arith in
              rw (sym wraps) (
                ground (
                  arith,
                  kem.agrees n m ct secret e,
                  decrypt-encrypt cipher nonce secret data_key aad sealed sized f,
                ))
        ]
      ]
