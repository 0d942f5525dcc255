-- ===== src/Tests/Access.antt =====
-- Requests with and without a token.
use tgcryptfs.Crypto.Aead.{Bytes}
use tgcryptfs.Common.Dict.{list_eq, nat_eq}
use tgcryptfs.Api.{auth_required, internal}
use tgcryptfs.Api.Auth.{
  get_method, other_method, Request, status_path, bearer, extract_bearer_token, constant_time_eq,
  is_open_path, verify, require_auth, HasToken, require_auth_iff,
}
use tgcryptfs.Policy.Strings.{strip_prefix}
use tgcryptfs.Volume.{diff_loop}
use tgcryptfs.Common.{◌≡◌, refl, ◌↔◌, ◌⊎◌, true, none, some, [], ◌∷◌, ◌++◌, ok, err}

abbrev hash : Bytes → Bytes
hash bytes = 0 ∷ bytes

abbrev request : Bytes → Request
request header = record { method = other_method; path = status_path; authorization = some header }

require_auth_iff_example :
    ((require_auth hash (some (0 ∷ 7 ∷ [])) (request (bearer ++ 7 ∷ [])) ≡ ok tt) ↔ (
      (is_open_path (request (bearer ++ 7 ∷ [])) ≡ true)
      ⊎ HasToken hash (0 ∷ 7 ∷ []) (request (bearer ++ 7 ∷ []))))
    × (¬ (
          (is_open_path (request (bearer ++ 7 ∷ [])) ≡ true)
          ⊎ HasToken hash (0 ∷ 7 ∷ []) (request (bearer ++ 7 ∷ [])))
        → require_auth hash (some (0 ∷ 7 ∷ [])) (request (bearer ++ 7 ∷ [])) ≡ err auth_required)
require_auth_iff_example = require_auth_iff hash (0 ∷ 7 ∷ []) (request (bearer ++ 7 ∷ []))

lets_in : require_auth hash (some (0 ∷ 7 ∷ [])) (request (bearer ++ 7 ∷ [])) ≡ ok tt
unfolding require_auth verify is_open_path extract_bearer_token strip_prefix constant_time_eq
    diff_loop
lets_in = refl

keeps_out : require_auth hash (some (0 ∷ 7 ∷ [])) (request (7 ∷ [])) ≡ err auth_required
unfolding require_auth verify is_open_path extract_bearer_token strip_prefix constant_time_eq
    diff_loop
keeps_out = refl

-- A server without the extension answers its own error, except on the open paths.
misconfigured : require_auth hash none (request []) ≡ err internal
unfolding require_auth is_open_path
misconfigured = refl

open_without_token : require_auth hash none (record (request []) { method = get_method }) ≡ ok tt
unfolding require_auth is_open_path
open_without_token = refl
