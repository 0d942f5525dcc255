-- ===== src/Volume/Roots.antt =====
-- The root key of a volume.
use tgcryptfs.Crypto.Aead.{Bytes}
use tgcryptfs.Volume.{
  KeyHierarchy, CoreError, Crates, derive_root_key, derive_hierarchy, derive_keys,
  hkdf_derive_with_salt, label,
}
use tgcryptfs.Volume.Config.{VolumeConfig, Argon2Params}
use tgcryptfs.Common.{
  ℕ, zero, suc, ◌≤◌, ◌<◌, ◌≡◌, ◌∙◌, inl, inr, some, [], ◌∷◌, arith, ltb, Bool-cases, Option-cases,
  Result, ok, err, ◌>>=◌, length, take, length-take, All, Result-cases,
}

-- A chain that answers keys answers them with this root.
abbrev HasRoot : Bytes → Result CoreError KeyHierarchy → Type 0
HasRoot root r = (keys : KeyHierarchy) → r ≡ ok keys → keys.root ≡ root

bind-HasRoot :
    {A : Type 0} (root : Bytes) (r : Result CoreError A) (f : A → Result CoreError KeyHierarchy)
    → ((a : A) → HasRoot root (f a))
    → HasRoot root (r >>= f)
bind-HasRoot root (ok a) f h = h a
bind-HasRoot root (err e) f h = λ keys k. absurd (ground arith)

ok-HasRoot : (made : KeyHierarchy) → HasRoot made.root (ok made)
ok-HasRoot made keys h = cc

module _ (crates : Crates) (path : Bytes → Bytes) where
  take-All : (P : ℕ → Type 0) (n : ℕ) (xs : Bytes) → All P xs → All P (take n xs)
  take-All P zero xs h = tt
  take-All P (suc n) [] h = tt
  take-All P (suc n) (x ∷ xs) (a, h) = (a, take-All P n xs h)

  derive_root_key-size :
      (password salt root : Bytes) (params : Argon2Params)
      → derive_root_key crates password salt params ≡ ok root
      → (output : Bytes) × (crates.argon2 password salt params ≡ some output)
        × (root ≡ take 32 output)
        × (32 ≤ length output)
  unfolding derive_root_key
  derive_root_key-size password salt root params h =
      elim (Option-cases (crates.argon2 password salt params)) [
        | inl e ↦ absurd (ground arith)
        | inr (output, e) ↦ elim (Bool-cases (ltb (length output) 32)) [
          | inl short ↦ absurd (ground arith)
          | inr long ↦ (output, e, ground arith, ground arith)
        ]
      ]

  abbrev derived : Bytes → Bytes → Bytes → Result CoreError Bytes
  derived root salt name = hkdf_derive_with_salt crates root (label name) (some salt)

  derive_hierarchy-HasRoot : (root salt : Bytes) → HasRoot root (derive_hierarchy crates root salt)
  unfolding derive_hierarchy
  derive_hierarchy-HasRoot root salt =
      bind-HasRoot root (derived root salt (b'd' ∷ b'a' ∷ b't' ∷ b'a' ∷ [])) _ (λ a.
        bind-HasRoot root (derived root salt (b'm' ∷ b'e' ∷ b't' ∷ b'a' ∷ [])) _ (λ b.
          bind-HasRoot root (derived root salt (b's' ∷ b'c' ∷ b'h' ∷ b'e' ∷ b'm' ∷ b'a' ∷ [])) _
            (λ c. bind-HasRoot root (derived root salt (b'i' ∷ b'h' ∷ [])) _ (λ d.
              bind-HasRoot root
                (derived root salt (b'w' ∷ b'r' ∷ b'a' ∷ b'p' ∷ b'p' ∷ b'i' ∷ b'n' ∷ b'g' ∷ [])) _
                (λ e.
                  bind-HasRoot root
                    (derived root salt (b'd' ∷ b'e' ∷ b'a' ∷ b'd' ∷ b'm' ∷ b'a' ∷ b'n' ∷ [])) _
                    (λ f. ok-HasRoot (record {
                      root = root;
                      for_data = a;
                      meta = b;
                      schema = c;
                      integrity = d;
                      wrapping = e;
                      deadman = f;
                    })))))))

  -- The root key has 32 bytes.
  pub derive_keys-root :
      (password : Bytes) (config : VolumeConfig) (keys : KeyHierarchy)
      → ((out : Bytes)
          → crates.argon2 password config.salt config.kdf_params ≡ some out
          → All (λ b. b < 256) out)
      → derive_keys crates path password config ≡ ok keys
      → (length keys.root ≡ 32) × All (λ b. b < 256) keys.root
  unfolding derive_keys
  derive_keys-root password config keys are_bytes h =
      elim (Result-cases (derive_root_key crates password config.salt config.kdf_params)) [
        | inr (e, d) ↦ absurd (ground arith)
        | inl (root, d) ↦
            let (output, e, cut, long) =
              derive_root_key-size password config.salt root config.kdf_params d in
            let same = derive_hierarchy-HasRoot root config.salt keys (ground arith) ∙ cut in
            rw same (
              omega (arith, length-take 32 output, long),
              take-All (λ b. b < 256) 32 output (are_bytes output e),
            )
      ]
