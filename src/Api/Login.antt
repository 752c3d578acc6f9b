-- ===== src/Api/Login.antt =====
-- internal/api/v1/auth.go, `Login` and `Logout`: the reply with the session cookie, where one is set.
pub mod Proven
use dnsmon.Base.{
  ℕ, ℤ, pos, negsuc, ◌+◌, ◌*◌, [], Option, none, some, Bool, true, false, ◌&&◌, Text, bytes,
  is_empty, text_eq, if◌then◌else◌,
}
use dnsmon.Settings.{Settings}
use dnsmon.Settings.Session.{Signing, sign_session}
use dnsmon.Settings.Secret.{Hashing, verify_secret, generate_token}
use dnsmon.World.{Result, ok, err, Action, ◌>>=◌, pure, Storage, Machine}
use dnsmon.Api.{Reply, refusal, value, invalid_input, internal_error, bad_body}
use dnsmon.Api.Auth.{SessionResponse}

pub record LoginRequest : Type 0 where
  pub username : Text
  pub password : Text

-- The value, `MaxAge` and `Expires` of the session cookie; its other attributes never change.
pub record Cookie : Type 0 where
  pub value : Text
  pub max_age : ℤ
  pub expires : ℕ

-- A week in nanoseconds.
abbrev session_ttl : ℕ
session_ttl = 7 * 24 * 3600000000000

abbrev Signed : Type 0
Signed = Reply SessionResponse × Option Cookie

unfoldable pub refused : ℕ → Text → Text → Signed
refused status code message = (refusal status code message, none)

module _ {W : Type 0} (store : Storage W) (machine : Machine W) (signing : Signing)
    (hashing : Hashing) where
  start_session : Settings → Action W Signed
  unfolding sign_session
  start_session s = do
    signed ← machine.now
    now ← machine.now
    pure (
      value 200 (record { enabled = true; authenticated = true; username = s.auth.username }),
      some (record {
        value = sign_session signing s.session_secret s.auth.username session_ttl signed;
        max_age = pos 0;
        expires = now + session_ttl;
      }),
    )

  secret_saved : Settings → Result (Unit {0}) → Action W Signed
  unfolding start_session refused bytes
  secret_saved s (err e) =
      pure (refused 500 internal_error (bytes "Failed to persist session secret."))
  secret_saved s (ok u) = start_session s

  secret_made : Settings → Option Text → Action W Signed
  unfolding secret_saved refused bytes
  secret_made s none = pure (refused 500 internal_error (bytes "Failed to start session."))
  secret_made s (some secret) = do
    r ← store.save_settings (record s { session_secret = secret })
    secret_saved (record s { session_secret = secret }) r

  -- The session, with a new secret to sign it where there is none yet.
  with_secret : Settings → Bool → Action W Signed
  unfolding secret_made start_session generate_token
  with_secret s false = start_session s
  with_secret s true = do secret ← generate_token machine hashing; secret_made s secret

  verified : Settings → Bool → Action W Signed
  unfolding with_secret refused bytes
  verified s false =
      pure (refused 401 (bytes "UNAUTHORIZED") (bytes "Invalid username or password."))
  verified s true = with_secret s (is_empty s.session_secret)

  login_enabled : LoginRequest → Settings → Bool → Action W Signed
  unfolding verified verify_secret refused bytes text_eq
  login_enabled req s false =
      pure (refused 400 invalid_input (bytes "Authentication is not enabled."))
  login_enabled req s true = verified s (
      text_eq req.username s.auth.username
      && verify_secret hashing req.password s.auth.password_hash)

  login_loaded : LoginRequest → Result Settings → Action W Signed
  unfolding login_enabled refused bytes
  login_loaded req (err e) = pure (refused 500 internal_error (bytes "Failed to load settings."))
  login_loaded req (ok s) = login_enabled req s s.auth.enabled

  -- `Login`, on the decoded body of the request.
  unfoldable pub login : Option LoginRequest → Action W Signed
  unfolding login_loaded
  login none = pure (bad_body, none)
  login (some req) = do s ← store.get_settings; login_loaded req s

-- `Logout`
unfoldable pub logout : Signed
logout = (
  value 200 (record { enabled = false; authenticated = false; username = [] }),
  some (record { value = []; max_age = negsuc 0; expires = 0 }),
)
