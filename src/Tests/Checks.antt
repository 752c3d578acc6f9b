-- ===== src/Tests/Checks.antt =====
-- Checks and lookups.
use dnsmon.Base.{◌≡◌, refl, [], ◌∷◌, true, Text, bytes}
use dnsmon.Dns.{Resolver}
use dnsmon.Registry.{new_registry}
use dnsmon.Registry.Lookup.{load-get}
use dnsmon.Checker.Request.{IsDomain, matches_domain, matches_domain_iff}
use dnsmon.Checker.Check.{fan_out, check}
use dnsmon.Checker.Check.Results.{Describes, check-Describes}
use dnsmon.Checker.Check.Caching.{with_cache, IsDomain-NoByte, fan_out_uncached, key_text_injective}
use dnsmon.Checker.Lookup.{LookupRequest}
use dnsmon.Tests.Fixtures.{quad9, google, resolver_of, empty, checker, request}

check-Describes_example :
    Describes checker (λ m. m) request (5, []) (check checker (λ m. m) request (5, [])).0
check-Describes_example =
    check-Describes checker (λ m. m) request (5, []) (load-get (quad9 ∷ google ∷ []) new_registry).0

fan_out_uncached_example :
    fan_out
      (with_cache checker empty)
      (bytes "example.com")
      (bytes "A")
      true
      (quad9 ∷ google ∷ [])
      (5, [])
    ≡ fan_out checker (bytes "example.com") (bytes "A") true (quad9 ∷ google ∷ []) (5, [])
fan_out_uncached_example =
    fan_out_uncached checker empty (bytes "example.com") (bytes "A") (quad9 ∷ google ∷ []) (5, [])

abbrev impostor : Resolver
impostor = resolver_of (bytes "google") (bytes "203.0.113.9")

plain : IsDomain (bytes "google")
unfolding matches_domain bytes
plain = (matches_domain_iff (bytes "google")).0 refl

site : IsDomain (bytes "example.com")
unfolding matches_domain bytes
site = (matches_domain_iff (bytes "example.com")).0 refl

key_text_injective_example :
    (bytes "google" ≡ bytes "google")
    × (bytes "example.com" ≡ bytes "example.com")
    × (bytes "A" ≡ bytes "A")
key_text_injective_example =
    key_text_injective (bytes "google") (bytes "example.com") (bytes "A") (bytes "google")
      (bytes "example.com") (bytes "A") (IsDomain-NoByte (bytes "google") plain.1)
      (IsDomain-NoByte (bytes "google") plain.1) site site refl

abbrev ask_of : Text → LookupRequest
ask_of resolver = record {
  name = bytes "example.com";
  type = bytes "A";
  resolver = resolver;
  protocol = [];
}
