-- ===== src/Api/Auth.antt =====
-- crates/tgcryptfs-api/src/server/auth.rs: which requests reach the service. The hash is the crate
-- blake3; a text is the list of its bytes. A header that is not visible ASCII counts as none.
use mathlib.Core.Path.{subst}
use tgcryptfs.Crypto.Aead.{Bytes}
use tgcryptfs.Common.Dict.{list_beq, list_eq, nat_eq}
use tgcryptfs.Api.{ApiError, auth_required, internal}
use tgcryptfs.Policy.Strings.{strip_prefix}
use tgcryptfs.Volume.{diff_loop}
use tgcryptfs.Volume.Compare.{diff_loop-zero, diff_loop_self}
use tgcryptfs.Common.{
  ◌≡◌, refl, ap, ◌∙◌, ◌↔◌, ◌⊎◌, inl, inr, Bool, true, false, not, ◌||◌, Option, none, some, [], ◌∷◌,
  ◌++◌, arith, ◌==◌, if◌then◌else◌, ==_iff, Bool-cases, Option-cases, Result, ok, err, length,
}

pub data Method : Type 0 where
  get_method other_method : Method

pub record Request : Type 0 where
  pub method : Method
  pub path : Bytes
  pub authorization : Option Bytes

-- "/api/v1/status" and "/api/v1/version"
abbrev pub status_path : Bytes
status_path =
    b'/' ∷ b'a' ∷ b'p' ∷ b'i' ∷ b'/' ∷ b'v' ∷ b'1' ∷ b'/' ∷ b's' ∷ b't' ∷ b'a' ∷ b't' ∷ b'u' ∷ b's'
    ∷ []

abbrev pub version_path : Bytes
version_path =
    b'/' ∷ b'a' ∷ b'p' ∷ b'i' ∷ b'/' ∷ b'v' ∷ b'1' ∷ b'/' ∷ b'v' ∷ b'e' ∷ b'r' ∷ b's' ∷ b'i' ∷ b'o'
    ∷ b'n' ∷ []

-- "Bearer "
abbrev pub bearer : Bytes
bearer = b'B' ∷ b'e' ∷ b'a' ∷ b'r' ∷ b'e' ∷ b'r' ∷ b' ' ∷ []

unfoldable pub extract_bearer_token : Request → Option Bytes
extract_bearer_token r = elim r.authorization [
  | none ↦ none
  | some header ↦ strip_prefix bearer header
]

-- The loop on u8, whose bits are those of the bytes.
unfoldable pub constant_time_eq : Bytes → Bytes → Bool
constant_time_eq a b = if not (length a == length b) then false else diff_loop 0 a b == 0

unfoldable pub is_open_path : Request → Bool
is_open_path r = elim r.method [
  | get_method ↦ list_beq r.path status_path || list_beq r.path version_path
  | other_method ↦ false
]

module _ (hash : Bytes → Bytes) where
  -- The stored hash, and the token of a request.
  unfoldable pub verify : Bytes → Bytes → Bool
  verify token_hash candidate = constant_time_eq token_hash (hash candidate)

  -- Ok when the request is handed on; `auth` is the extension with the stored hash.
  unfoldable pub require_auth : Option Bytes → Request → Result ApiError (Unit {0})
  require_auth auth r = if is_open_path r then ok tt else elim auth [
    | none ↦ err internal
    | some token_hash ↦ elim (extract_bearer_token r) [
      | none ↦ err auth_required
      | some token ↦ if not (verify token_hash token) then err auth_required else ok tt
    ]
  ]

strip_prefix-some :
    (prefix text rest : Bytes) → strip_prefix prefix text ≡ some rest → text ≡ prefix ++ rest
unfolding strip_prefix
strip_prefix-some [] text rest h = cc
strip_prefix-some (p ∷ ps) [] rest h = absurd (ground arith)
strip_prefix-some (p ∷ ps) (c ∷ cs) rest h =
    ground (arith, strip_prefix-some ps cs rest, ==_iff p c)

strip_prefix-append : (prefix rest : Bytes) → strip_prefix prefix (prefix ++ rest) ≡ some rest
unfolding strip_prefix
strip_prefix-append [] rest = refl
strip_prefix-append (p ∷ ps) rest = ground (arith, strip_prefix-append ps rest, (==_iff p p).1 refl)

constant_time_eq_iff : (a b : Bytes) → (constant_time_eq a b ≡ true) ↔ (a ≡ b)
unfolding constant_time_eq
constant_time_eq_iff a b = (
  λ h. elim (Bool-cases (length a == length b)) [
    | inr differs ↦ absurd (ground arith)
    | inl same ↦
        let zero_is : (diff_loop 0 a b == 0) ≡ true = ground arith in
        let (_, equal) = diff_loop-zero 0 a b ((==_iff (diff_loop 0 a b) 0).0 zero_is) in
        equal ((==_iff (length a) (length b)).0 same)
  ],
  λ e.
      subst (λ x. constant_time_eq a x ≡ true) e
        (rw ((==_iff (length a) (length a)).1 refl, diff_loop_self a) refl),
)

module _ (hash : Bytes → Bytes) where
  -- The header is "Bearer " and a token with the stored hash.
  abbrev pub HasToken : Bytes → Request → Type 0
  HasToken token_hash r =
      (token : Bytes) × (r.authorization ≡ some (bearer ++ token)) × (token_hash ≡ hash token)

  token_of :
      (r : Request) (token : Bytes)
      → extract_bearer_token r ≡ some token
      → r.authorization ≡ some (bearer ++ token)
  unfolding extract_bearer_token
  token_of r token h = elim (Option-cases r.authorization) [
    | inl e ↦ absurd (ground arith)
    | inr (header, e) ↦ e ∙ ap (λ x. some x) (strip_prefix-some bearer header token (ground arith))
  ]

  token_found :
      (r : Request) (token : Bytes)
      → r.authorization ≡ some (bearer ++ token)
      → extract_bearer_token r ≡ some token
  unfolding extract_bearer_token
  token_found r token h = rw (h, extract_bearer_token) (strip_prefix-append bearer token)

  -- On a server with a stored hash, a request is handed on exactly if it is a GET of one of the two open
  -- paths, or its header is "Bearer " and a token with that hash; any other request is answered with
  -- the error for missing authentication.
  pub require_auth_iff :
      (token_hash : Bytes) (r : Request)
      → ((require_auth hash (some token_hash) r ≡ ok tt)
          ↔ ((is_open_path r ≡ true) ⊎ HasToken token_hash r))
        × (¬ ((is_open_path r ≡ true) ⊎ HasToken token_hash r)
            → require_auth hash (some token_hash) r ≡ err auth_required)
  unfolding require_auth verify
  require_auth_iff token_hash r = elim (Bool-cases (is_open_path r)) [
    | inl open_is ↦ (
      (λ _. inl open_is, λ _. rw (open_is, require_auth) refl),
      λ neither. absurd (neither (inl open_is)),
    )
    | inr closed ↦ elim (Option-cases (extract_bearer_token r)) [
      | inl e ↦ (
        (
          λ h. absurd (ground arith),
          λ which. elim which [
            | inl open_is ↦ absurd (cc)
            | inr (token, given, same) ↦ absurd (cc (token_found r token given))
          ],
        ),
        λ neither. rw (closed, e, require_auth) refl,
      )
      | inr (token, e) ↦ elim (Bool-cases (constant_time_eq token_hash (hash token))) [
        | inl same ↦
            let has : HasToken token_hash r =
              (token, token_of r token e, (constant_time_eq_iff token_hash (hash token)).0 same) in
            (
              (λ _. inr has, λ _. rw (closed, e, same, require_auth) refl),
              λ neither. absurd (neither (inr has)),
            )
        | inr differs ↦ (
          (
            λ h. absurd (ground arith),
            λ which. elim which [
              | inl open_is ↦ absurd (cc)
              | inr (other, given, same) ↦
                  let is_other : other ≡ token = cc (token_found r other given) in
                  absurd (
                    cc ((constant_time_eq_iff token_hash (hash token)).1 (same ∙ ap hash is_other)))
            ],
          ),
          λ neither. rw (closed, e, differs, require_auth) refl,
        )
      ]
    ]
  ]
