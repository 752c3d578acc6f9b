-- ===== src/Checker/ResolverList.antt =====
-- internal/checker/checker.go, `buildResolverList` and `disabledResolverSet`: the resolvers that a
-- check asks.
pub mod Bounds
use dnsmon.Base.{
  ℕ, List, [], ◌∷◌, ◌++◌, Option, none, some, Bool, true, not, ◌&&◌, Text, bytes, member, keep,
  take, ltb, length, is_empty, if◌then◌else◌,
}
use dnsmon.Dns.{Resolver}
use dnsmon.Registry.{Registry, get, all}
use dnsmon.Settings.{Settings}
use dnsmon.World.{Result, ok, err, failed, Error, Action, ◌>>=◌, pure, Storage}
use dnsmon.Checker.Request.{CheckRequest, max_resolvers, is_private_or_local}

-- The ids that are disabled; none, if the settings cannot be read.
unfoldable pub disabled_of : Result Settings → List Text
disabled_of (ok s) = s.disabled_resolvers
disabled_of (err e) = []

unfoldable pub disabled_resolver_set : {W : Type 0} → Storage W → Action W (List Text)
unfolding disabled_of
disabled_resolver_set store = do s ← store.get_settings; pure (disabled_of s)

abbrev cons_ok : Resolver → Result (List Resolver) → Result (List Resolver)
cons_ok r (ok rs) = ok (r ∷ rs)
cons_ok r (err e) = err e

-- The loop over the ids that a request names.
unfoldable pub pick_ids : Registry → List Text → List Text → Result (List Resolver)
unfolding bytes
pick_ids reg disabled [] = ok []
pick_ids reg disabled (id ∷ ids) =
    let rest = pick_ids reg disabled ids in
    if member id disabled then rest else elim (get reg id) [
      | none ↦ err (failed (bytes "resolver not found: " ++ id))
      | some r ↦ cons_ok r rest
    ]

-- The loop over all resolvers of the registry.
unfoldable pub enabled : List Text → List Resolver → List Resolver
unfolding keep
enabled disabled rs = keep (λ (r : Resolver). not (member r.id disabled)) rs

unfoldable pub registered : Registry → List Text → List Text → Result (List Resolver)
unfolding pick_ids enabled
registered reg disabled ids =
    if is_empty ids then ok (enabled disabled (all reg)) else pick_ids reg disabled ids

-- The loop over the custom resolvers.
unfoldable pub admit : Bool → List Resolver → Result (List Resolver)
unfolding bytes
admit allow_private [] = ok []
admit allow_private (c ∷ cs) =
    let rest = admit allow_private cs in
    if not allow_private && is_private_or_local c.ip
    then err
        (failed (bytes "custom resolver IP \"" ++ c.ip ++ bytes "\" is a private or local address"))
    else cons_ok c rest

abbrev append_ok : Result (List Resolver) → Result (List Resolver) → Result (List Resolver)
append_ok (ok rs) (ok cs) = ok (take max_resolvers (rs ++ cs))
append_ok (ok rs) (err e) = err e
append_ok (err e) cs = err e

-- `buildResolverList`, given the disabled ids.
unfoldable pub resolver_list : Registry → List Text → CheckRequest → Result (List Resolver)
unfolding registered admit
resolver_list reg disabled req =
    append_ok (registered reg disabled req.resolver_ids)
      (admit req.allow_private req.custom_resolvers)

unfoldable pub build_resolver_list :
    {W : Type 0} → Registry → Storage W → CheckRequest → Action W (Result (List Resolver))
unfolding resolver_list disabled_resolver_set
build_resolver_list reg store req = do
  disabled ← disabled_resolver_set store
  pure (resolver_list reg disabled req)
