-- ===== src/Api/Headers.antt =====
-- internal/api/middleware.go: the middleware that sets headers. A response is the list of its headers,
-- of which a later one replaces an earlier one with the same name.
use dnsmon.Base.{
  ℕ, List, [], ◌∷◌, Bool, true, false, Text, bytes, is_empty, decimal, insert, text_eq,
  if◌then◌else◌,
}

-- What a middleware makes of a request: the headers of the response, and whether it goes on.
pub record Passed : Type 0 where
  pub headers : List (Text × Text)
  pub goes_on : Bool

-- `RequestID` at the time `now`, for the id that the request brings.
unfoldable request_id : Text → ℕ → List (Text × Text) → Passed
unfolding insert bytes decimal
request_id id now headers = record {
  headers = insert (bytes "X-Request-ID") (if is_empty id then decimal now else id) headers;
  goes_on = true;
}

set_all : List (Text × Text) → List (Text × Text) → List (Text × Text)
unfolding insert
set_all [] headers = headers
set_all (h ∷ hs) headers = set_all hs (insert h.0 h.1 headers)

cors_headers : Text → List (Text × Text)
unfolding bytes
cors_headers allowed =
    (bytes "Access-Control-Allow-Origin", if is_empty allowed then bytes "*" else allowed)
    ∷ (bytes "Vary", bytes "Origin")
    ∷ (bytes "Access-Control-Allow-Methods", bytes "GET, POST, DELETE, OPTIONS")
    ∷ (bytes "Access-Control-Allow-Headers", bytes "Content-Type, Authorization, X-Request-ID")
    ∷ []

-- `CORS`, which answers the method OPTIONS itself, with status 204.
unfoldable cors : Text → Text → List (Text × Text) → Passed
unfolding set_all cors_headers text_eq bytes
cors allowed method headers = record {
  headers = set_all (cors_headers allowed) headers;
  goes_on = if text_eq method (bytes "OPTIONS") then false else true;
}

secure : List (Text × Text)
unfolding bytes
secure =
    (
      bytes "Content-Security-Policy",
      bytes
          "default-src 'self'; script-src 'self' 'unsafe-inline'; style-src 'self' 'unsafe-inline'; img-src 'self' data:; font-src 'self'",
    )
    ∷ (bytes "X-Content-Type-Options", bytes "nosniff")
    ∷ (bytes "X-Frame-Options", bytes "DENY")
    ∷ (bytes "Referrer-Policy", bytes "strict-origin-when-cross-origin")
    ∷ (bytes "Permissions-Policy", bytes "geolocation=(), camera=(), microphone=()")
    ∷ []

-- `SecureHeaders`
unfoldable secure_headers : List (Text × Text) → Passed
unfolding set_all secure
secure_headers headers = record { headers = set_all secure headers; goes_on = true }
