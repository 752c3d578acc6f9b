-- ===== src/Settings/Session.antt =====
-- internal/settings/session.go: the signed token of a session. HMAC-SHA-256 and `base64.RawURLEncoding`
-- are arguments. A time is the nanoseconds since 1970, and `Unix()` is its seconds.
pub mod Tokens
use dnsmon.Base.{
  ℕ, ◌+◌, ◌/◌, List, [], ◌∷◌, ◌++◌, Option, none, some, Bool, true, false, Text, bytes, cut,
  text_eq, ltb, leb, not, if◌then◌else◌, decimal, ℤ, pos, negsuc, parse_int,
}

-- `hmac secret msg`, and the encoding with its partial inverse.
pub record Signing : Type 0 where
  pub hmac : Text → Text → Text
  pub encode : Text → Text
  pub decode : Text → Option Text

-- `sign(secret, msg)`
unfoldable pub sign : Signing → Text → Text → Text
sign c secret msg = c.encode (c.hmac secret msg)

-- `t.Unix()`
unfoldable pub unix : ℕ → ℕ
unix t = t / 1000000000

-- `SignSession(secret, username, ttl)` at the time `now`
unfoldable pub sign_session : Signing → Text → Text → ℕ → ℕ → Text
unfolding sign unix decimal
sign_session c secret username ttl now =
    let enc = c.encode (username ++ b'|' ∷ decimal (unix (now + ttl))) in
    enc ++ b'.' ∷ sign c secret enc

-- `time.Now().Unix() >= exp`
unfoldable pub is_expired : ℕ → ℤ → Bool
unfolding unix
is_expired now (pos exp) = leb exp (unix now)
is_expired now (negsuc n) = true

unfoldable pub admit_name : ℕ → Text → Option ℤ → Option Text
unfolding is_expired
admit_name now name none = none
admit_name now name (some exp) = if is_expired now exp then none else some name

unfoldable pub parse_payload : ℕ → Option (Text × Text) → Option Text
unfolding admit_name parse_int
parse_payload now none = none
parse_payload now (some (name, exp)) = admit_name now name (parse_int exp)

unfoldable pub parse_raw : ℕ → Option Text → Option Text
unfolding parse_payload cut
parse_raw now none = none
parse_raw now (some raw) = parse_payload now (cut b'|' raw)

-- The comparison of the two codes, which is `hmac.Equal`, comes first.
unfoldable pub parse_signed : Signing → Text → ℕ → Option (Text × Text) → Option Text
unfolding sign parse_raw text_eq
parse_signed c secret now none = none
parse_signed c secret now (some (enc, mac)) =
    if text_eq mac (sign c secret enc) then parse_raw now (c.decode enc) else none

-- `ParseSession(secret, token)` at the time `now`: the name, where it is accepted.
unfoldable pub parse_session : Signing → Text → Text → ℕ → Option Text
unfolding parse_signed cut
parse_session c secret token now = parse_signed c secret now (cut b'.' token)
