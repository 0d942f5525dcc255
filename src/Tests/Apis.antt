-- ===== src/Tests/Apis.antt =====
-- Two calls that open one volume at the same time.
use tgcryptfs.Api.{session_not_open, session_already_open}
use tgcryptfs.Crypto.Aead.{Bytes}
use tgcryptfs.Api.Sessions.{
  OpenSession, SessionManager, check_closed, register, open_session, close, get_session,
}
use tgcryptfs.Common.{ℕ, ◌≡◌, refl, none, some, [], ◌∷◌, ok, err}

abbrev volume : Bytes
volume = 4 ∷ 2 ∷ []

abbrev session : ℕ → OpenSession
session task = record {
  volume_id = volume;
  display_name = [];
  task = some task;
  mount_point = none;
}

abbrev both : SessionManager
both = register volume (session 2) (register volume (session 1) [])

-- Both calls pass the check before either registers: the second session takes the place of the
-- first, whose task no `close` aborts any more.
overlapping :
    (check_closed volume [] ≡ ok tt)
    × (get_session volume both ≡ ok (session 2))
    × ((close volume both).1 ≡ ok (some 2))
    × (get_session volume (close volume both).0 ≡ err session_not_open)
unfolding check_closed register get_session close
overlapping = (refl, refl, refl, refl)

-- An `open` that starts once a session is registered is refused.
refused :
    open_session volume (ok (session 2)) (register volume (session 1) [])
    ≡ (register volume (session 1) [], err session_already_open)
unfolding check_closed register open_session
refused = refl
