-- ===== src/Tests/Registries.antt =====
-- Registries and the choice of resolvers.
use dnsmon.Base.{
  ℕ, ◌≤◌, ◌≡◌, refl, List, [], ◌∷◌, ◌++◌, Option, none, some, true, false, Text, bytes, All, length,
  keep, or_else,
}
use dnsmon.Dns.{Resolver}
use dnsmon.Registry.{load, all, new_registry, loaded}
use dnsmon.Registry.Lookup.{load-get, load_file-get, LoadFileSpec}
use dnsmon.Checker.Request.{max_resolvers}
use dnsmon.Checker.ResolverList.{resolver_list}
use dnsmon.Checker.ResolverList.Bounds.{Origin, resolver_list-Origin}
use dnsmon.Tests.Fixtures.{quad9, google, resolver_of, known, request}

abbrev listed : List Resolver
listed = quad9 ∷ resolver_of (bytes "nowhere") [] ∷ google ∷ []

load_file-get_example : LoadFileSpec (bytes "resolvers.json") (loaded listed) known
load_file-get_example =
    load_file-get (bytes "resolvers.json") (loaded listed) known
      (load-get (quad9 ∷ google ∷ []) new_registry).0

resolver_list-Origin_example :
    All (Origin known (bytes "quad9" ∷ []) request) (google ∷ [])
    × (length (google ∷ []) ≤ max_resolvers)
unfolding resolver_list load all dnsmon.Base.member dnsmon.Base.text_eq
resolver_list-Origin_example =
    resolver_list-Origin known (bytes "quad9" ∷ []) request
      (load-get (quad9 ∷ google ∷ []) new_registry).0 (google ∷ []) refl
