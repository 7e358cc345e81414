-- ===== src/Sessions.antt =====
-- internal/webui/session.go: the table of sessions. `now` is what `time.Now()` gives to the call, in
-- nanoseconds; the token of a new session is the parameter of `create`, `none` where `rand.Read` fails.
pub mod Kept
pub mod Lifetime
use do_daemon.Prelude.{
  Bool, Bytes, List, Option, [], equal, false, if◌then◌else◌, ltb, none, some, true, ℕ, ◌+◌, ◌∷◌,
}

-- token -> expiry
abbrev pub SessionStore : Type 0
SessionStore = List (Bytes × ℕ)

-- 12 hours
abbrev pub session_ttl : ℕ
session_ttl = 43_200_000_000_000

unfoldable pub get_session : Bytes → SessionStore → Option ℕ
get_session token [] = none
get_session token ((t, exp) ∷ m) = if equal t token then some exp else get_session token m

unfoldable pub delete_session : Bytes → SessionStore → SessionStore
delete_session token [] = []
delete_session token ((t, exp) ∷ m) =
    let rest = delete_session token m in if equal t token then rest else (t, exp) ∷ rest

unfoldable pub set_session : Bytes → ℕ → SessionStore → SessionStore
unfolding delete_session
set_session token exp m = (token, exp) ∷ delete_session token m

unfoldable pub create : Option Bytes → ℕ → SessionStore → SessionStore × Option Bytes
unfolding set_session
create none now s = (s, none)
create (some token) now s = (set_session token (now + session_ttl) s, some token)

unfoldable pub valid : Bytes → ℕ → SessionStore → SessionStore × Bool
unfolding get_session delete_session
valid token now s = elim (get_session token s) [
  | none ↦ (s, false)
  | some exp ↦ if ltb exp now then (delete_session token s, false) else (s, true)
]

unfoldable pub revoke : Bytes → SessionStore → SessionStore
unfolding delete_session
revoke token s = delete_session token s

-- What becomes of a request: the handler behind `requireAuth` runs, or the client is sent to /login.
pub data Response : Type 0 where
  served redirected : Response

-- `cookie` is `none` where the request has no session cookie.
unfoldable pub require_auth : Option Bytes → ℕ → SessionStore → SessionStore × Response
unfolding valid
require_auth none now s = (s, redirected)
require_auth (some token) now s =
    let (s', good) = valid token now s in (s', if good then served else redirected)
