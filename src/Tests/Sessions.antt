-- ===== src/Tests/Sessions.antt =====
-- Sessions and the requests behind them.
use dnsmon.Base.{
  ℕ, ◌+◌, ◌-◌, ◌*◌, ◌<◌, ◌≡◌, refl, ap, ◌∙◌, [], ◌∷◌, ◌++◌, map, Option, none, some, true, Text,
  bytes, arith, NoByte, ltb→lt, int64_limit,
}
use dnsmon.Settings.Session.{Signing, unix, sign_session, parse_session}
use dnsmon.Settings.Session.Tokens.{
  IsBase64, IsSigned, parse_session-sign_session, parse_session-bar, parse_session-IsSigned,
}
use dnsmon.World.{ok, Storage}
use dnsmon.Checker.Request.{IsDomain, matches_domain, matches_domain_iff}
use dnsmon.Checker.Check.Caching.{IsDomain-NoByte}
use dnsmon.Api.Auth.{require_auth, Passes, require_auth-Passes}
use dnsmon.Api.Routes.{Handler, Method, Route, routes, served, served_by, when_passed}
use dnsmon.Api.Routes.Guarded.{is_private, served-Passes}
use dnsmon.Tests.Fixtures.{World, settings, storage, checker}

-- An encoding that shifts each byte past the dot, and a code that is the secret itself.
abbrev pub signing : Signing
signing = record {
  hmac = λ secret msg. secret;
  encode = λ s. map (λ (c : ℕ). c + 47) s;
  decode = λ s. some (map (λ (c : ℕ). c - 47) s);
}

pub unshift : (s : Text) → map (λ (c : ℕ). c - 47) (map (λ (c : ℕ). c + 47) s) ≡ s
unshift [] = refl
unshift (c ∷ s) = ap (λ t. (c + 47 - 47) ∷ t) (unshift s) ∙ ap (λ n. n ∷ s) (omega arith)

no_dot : (s : Text) → NoByte b'.' (map (λ (c : ℕ). c + 47) s)
no_dot [] = tt
no_dot (c ∷ s) = (λ e. omega (arith, e), no_dot s)

signing-IsBase64 : IsBase64 signing
signing-IsBase64 = record { inverse = λ s. ap some (unshift s); plain = no_dot }

abbrev second : ℕ
second = 1000000000

plain_name : IsDomain (bytes "admin")
unfolding matches_domain bytes
plain_name = (matches_domain_iff (bytes "admin")).0 refl

in_time : unix (2 * second) < unix (second + 60 * second)
unfolding unix
in_time = ltb→lt _ _ refl

representable : unix (second + 60 * second) < int64_limit
unfolding unix
representable = ltb→lt _ _ refl

parse_session-sign_session_example :
    parse_session signing
      (bytes "k")
      (sign_session signing (bytes "k") (bytes "admin") (60 * second) second)
      (2 * second)
    ≡ some (bytes "admin")
parse_session-sign_session_example =
    parse_session-sign_session signing signing-IsBase64 (bytes "k") (bytes "admin") (60 * second)
      second (2 * second) (IsDomain-NoByte (bytes "admin") plain_name.1) representable in_time

parse_session-bar_example :
    parse_session signing
      (bytes "k")
      (sign_session signing (bytes "k") (bytes "admin" ++ b'|' ∷ bytes "x") (60 * second) second)
      (2 * second)
    ≡ none
parse_session-bar_example =
    parse_session-bar signing signing-IsBase64 (bytes "k") (bytes "admin") (bytes "x") (60 * second)
      second (2 * second) (IsDomain-NoByte (bytes "admin") plain_name.1)

parse_session-IsSigned_example :
    IsSigned signing
      (bytes "k")
      (sign_session signing (bytes "k") (bytes "admin") (60 * second) second)
      (2 * second)
      (bytes "admin")
parse_session-IsSigned_example =
    parse_session-IsSigned signing (bytes "k")
      (sign_session signing (bytes "k") (bytes "admin") (60 * second) second) (2 * second)
      (bytes "admin") parse_session-sign_session_example

abbrev guarded : Storage World
guarded = record storage {
  get_settings = λ w. (
    ok (record settings {
      auth = record { enabled = true; username = bytes "admin"; password_hash = bytes "h" };
      session_secret = bytes "k";
    }),
    w,
  );
}

abbrev cookie : Option Text
cookie = some (sign_session signing (bytes "k") (bytes "admin") (60 * second) second)

require_auth-Passes_example : Passes guarded checker.machine signing cookie (2 * second, [])
unfolding require_auth sign_session bytes
require_auth-Passes_example =
    require_auth-Passes guarded checker.machine signing cookie (2 * second, []) refl

abbrev settings_route : Route
settings_route = record {
  method = Method.get;
  pattern = bytes "/api/v1/settings";
  is_guarded = true;
  handler = Handler.get_settings;
}

served-Passes_example : Passes guarded checker.machine signing cookie (2 * second, [])
unfolding require_auth sign_session bytes served served_by when_passed is_private routes
served-Passes_example =
    served-Passes guarded checker.machine signing 32 settings_route Handler.get_settings cookie
      (2 * second, []) refl refl refl
