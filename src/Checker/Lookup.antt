-- ===== src/Checker/Lookup.antt =====
-- internal/checker/checker.go, `Lookup`: a query of one resolver.
pub mod Choice
use dnsmon.Base.{
  ℕ, List, [], ◌∷◌, ◌++◌, Option, none, some, Bool, true, false, not, Text, bytes, is_empty, member,
  if◌then◌else◌,
}
use dnsmon.Dns.{Resolver, ResolverResult}
use dnsmon.Dns.RecordTypes.{is_supported}
use dnsmon.Registry.{get}
use dnsmon.World.{Result, ok, err, failed, wrap, Error, Action, ◌>>=◌, pure}
use dnsmon.Checker.Request.{is_private_or_local}
use dnsmon.Checker.ResolverList.{disabled_resolver_set}
use dnsmon.Checker.State.{Checker}
use dnsmon.Checker.Check.{type_number}

pub record LookupRequest : Type 0 where
  pub name : Text
  pub type : Text
  pub resolver : Text
  pub protocol : Text

-- The resolver `custom` that stands for an address.
unfoldable pub custom_resolver : Text → Text → Text → Resolver
unfolding bytes
custom_resolver name ip protocol = record {
  id = bytes "custom";
  name = name;
  ip = ip;
  port = 53;
  protocol = protocol;
  country = [];
  city = [];
  lat = 0;
  lng = 0;
  asn = 0;
  isp = [];
}

module _ {W : Type 0} (c : Checker W) where
  -- The address that a request gives instead of an id, and whether it is private or local.
  unfoldable pub custom_choice : LookupRequest → Bool → Result Resolver
  unfolding bytes custom_resolver
  custom_choice req true =
      err (
        failed (bytes "resolver IP \"" ++ req.resolver ++ bytes "\" is a private or local address"))
  custom_choice req false = ok (
      custom_resolver req.resolver req.resolver
        (if is_empty req.protocol then c.cfg.default_protocol else req.protocol))

  -- The resolver of the registry, and whether its id is disabled.
  unfoldable pub listed_choice : LookupRequest → Bool → Resolver → Result Resolver
  unfolding bytes
  listed_choice req true r = err (failed (bytes "resolver is disabled: " ++ req.resolver))
  listed_choice req false r = ok r

  unfoldable pub named_choice : List Text → LookupRequest → Option Resolver → Result Resolver
  unfolding custom_choice listed_choice
  named_choice disabled req (some r) = listed_choice req (member req.resolver disabled) r
  named_choice disabled req none = custom_choice req (is_private_or_local req.resolver)

  -- The choice where the request names no resolver, and where it names one.
  unfoldable pub first_choice : List Text → LookupRequest → Bool → Result Resolver
  unfolding named_choice custom_resolver bytes
  first_choice disabled req true =
      ok (custom_resolver (bytes "Custom") (bytes "8.8.8.8") (bytes "udp"))
  first_choice disabled req false = named_choice disabled req (get c.registry req.resolver)

  -- The choice of the resolver, given the disabled ids.
  unfoldable pub choose : List Text → LookupRequest → Result Resolver
  unfolding first_choice
  choose disabled req = first_choice disabled req (is_empty req.resolver)

  wrap_query : Result ResolverResult → Result ResolverResult
  wrap_query (ok x) = ok x
  wrap_query (err e) = err (wrap (bytes "querying resolver") e)

  ask : LookupRequest → Result Resolver → Action W (Result ResolverResult)
  ask req (err e) = pure (err e)
  ask req (ok r) = do
    answer ← c.client.query r req.name (type_number req.type)
    pure (wrap_query answer)

  -- The settings are read only where the request names a resolver of the registry.
  unfoldable pub consulted : LookupRequest → Action W (List Text)
  consulted req = if is_empty req.resolver then pure [] else elim (get c.registry req.resolver) [
    | some r ↦ disabled_resolver_set c.storage
    | none ↦ pure []
  ]

  -- `Lookup`
  unfoldable pub lookup : LookupRequest → Action W (Result ResolverResult)
  unfolding bytes ask wrap_query choose consulted
  lookup req =
      if is_empty req.name
      then pure (err (failed (bytes "name is required")))
      else if not (is_supported req.type)
      then pure (err (failed (bytes "unsupported record type: " ++ req.type)))
      else do disabled ← consulted req; ask req (choose disabled req)
