-- ===== src/Api/Auth.antt =====
-- internal/api/middleware.go, `RequireAuth`, and `Session` of internal/api/v1/auth.go. The cookie is
-- `none` where the request has none.
use dnsmon.Base.{
  ◌≡◌, refl, [], Option, none, some, Bool, true, false, Text, bytes, text_eq, text_eq_iff, ap,
  if◌then◌else◌,
}
use mathlib.Core.Bool.{false≢true}
use dnsmon.Settings.{Settings}
use dnsmon.Settings.Session.{Signing, parse_session}
use dnsmon.Settings.Session.Tokens.{IsSigned, parse_session-IsSigned}
use dnsmon.World.{Result, ok, err, Action, ◌>>=◌, pure, Storage, Machine}
use dnsmon.Api.{Reply, refusal, value, internal_error}

-- Whether a session names the user of the settings.
unfoldable pub names : Text → Option Text → Bool
unfolding text_eq
names username none = false
names username (some name) = text_eq name username

pub record SessionResponse : Type 0 where
  pub enabled : Bool
  pub authenticated : Bool
  pub username : Text

session_of : Text → Option Text → SessionResponse
unfolding text_eq
session_of username none = record { enabled = true; authenticated = false; username = [] }
session_of username (some name) =
    if text_eq name username
    then record { enabled = true; authenticated = true; username = name }
    else record { enabled = true; authenticated = false; username = [] }

module _ {W : Type 0} (store : Storage W) (machine : Machine W) (c : Signing) where
  unfoldable pub pass_cookie : Settings → Option Text → Action W Bool
  unfolding names parse_session
  pass_cookie s none = pure false
  pass_cookie s (some token) = do
    now ← machine.now
    pure (names s.auth.username (parse_session c s.session_secret token now))

  unfoldable pub pass_enabled : Settings → Option Text → Bool → Action W Bool
  unfolding pass_cookie
  pass_enabled s cookie false = pure true
  pass_enabled s cookie true = pass_cookie s cookie

  unfoldable pub pass_loaded : Option Text → Result Settings → Action W Bool
  unfolding pass_enabled
  pass_loaded cookie (err e) = pure false
  pass_loaded cookie (ok s) = pass_enabled s cookie s.auth.enabled

  -- `RequireAuth`: whether the request goes on; else it is refused, or a page redirected.
  unfoldable pub require_auth : Option Text → Action W Bool
  unfolding pass_loaded
  require_auth cookie = do s ← store.get_settings; pass_loaded cookie s

  session_cookie : Settings → Option Text → Action W SessionResponse
  unfolding session_of parse_session
  session_cookie s none = pure (session_of s.auth.username none)
  session_cookie s (some token) = do
    now ← machine.now
    pure (session_of s.auth.username (parse_session c s.session_secret token now))

  session_enabled : Settings → Option Text → Bool → Action W SessionResponse
  unfolding session_cookie
  session_enabled s cookie false =
      pure (record { enabled = false; authenticated = false; username = [] })
  session_enabled s cookie true = session_cookie s cookie

  session_loaded : Option Text → Result Settings → Action W (Reply SessionResponse)
  unfolding session_enabled bytes
  session_loaded cookie (err e) =
      pure (refusal 500 internal_error (bytes "Failed to load settings."))
  session_loaded cookie (ok s) = do r ← session_enabled s cookie s.auth.enabled; pure (value 200 r)

  -- `Session`
  unfoldable pub session : Option Text → Action W (Reply SessionResponse)
  unfolding session_loaded
  session cookie = do s ← store.get_settings; session_loaded cookie s

  -- Why a request may go on in the world `w`: by the settings that it holds, and the time of the clock
  -- once they are read.
  pub data Passes (cookie : Option Text) (w : W) : Type 0 where
    unguarded :
        (s : Settings) → (store.get_settings w).0 ≡ ok s → s.auth.enabled ≡ false → Passes cookie w
    signed_in :
        (s : Settings) (token : Text)
        → (store.get_settings w).0 ≡ ok s
        → cookie ≡ some token
        → IsSigned c s.session_secret token (machine.now (store.get_settings w).1).0 s.auth.username
        → Passes cookie w

  names-some : (username : Text) (o : Option Text) → names username o ≡ true → o ≡ some username
  unfolding names
  names-some username none e = cc
  names-some username (some name) e = ap some ((text_eq_iff name username).0 e)

  pass_cookie-Passes :
      (cookie : Option Text) (s : Settings) (w : W)
      → (store.get_settings w).0 ≡ ok s
      → (pass_cookie s cookie (store.get_settings w).1).0 ≡ true
      → Passes cookie w
  unfolding pass_cookie
  pass_cookie-Passes none s w g e = absurd (false≢true e)
  pass_cookie-Passes (some token) s w g e =
      let now = (machine.now (store.get_settings w).1).0 in
      signed_in s token g refl (
        parse_session-IsSigned c s.session_secret token now s.auth.username
          (names-some s.auth.username (parse_session c s.session_secret token now) e))

  pass_enabled-Passes :
      (cookie : Option Text) (s : Settings) (b : Bool) (w : W)
      → (store.get_settings w).0 ≡ ok s
      → s.auth.enabled ≡ b
      → (pass_enabled s cookie b (store.get_settings w).1).0 ≡ true
      → Passes cookie w
  unfolding pass_enabled
  pass_enabled-Passes cookie s false w g b e = unguarded s g b
  pass_enabled-Passes cookie s true w g b e = pass_cookie-Passes cookie s w g e

  pass_loaded-Passes :
      (cookie : Option Text) (x : Result Settings) (w : W)
      → (store.get_settings w).0 ≡ x
      → (pass_loaded cookie x (store.get_settings w).1).0 ≡ true
      → Passes cookie w
  unfolding pass_loaded
  pass_loaded-Passes cookie (err x) w g e = absurd (false≢true e)
  pass_loaded-Passes cookie (ok s) w g e = pass_enabled-Passes cookie s s.auth.enabled w g refl e

  -- A request goes on behind `RequireAuth` only if the settings can be read and authentication is off
  -- in them, or if it has a cookie whose token is signed with their secret for their user and expires
  -- later than the time that the clock gives next.
  pub require_auth-Passes :
      (cookie : Option Text) (w : W) → (require_auth cookie w).0 ≡ true → Passes cookie w
  unfolding require_auth
  require_auth-Passes cookie w e = pass_loaded-Passes cookie (store.get_settings w).0 w refl e
