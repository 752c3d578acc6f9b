-- ===== src/Checker/Check.antt =====
-- internal/checker/checker.go, `queryWithCache`, `Check` and `Lookup`, and `Key` of
-- internal/cache/cache.go. `fan_out` asks the resolvers one after the other, which is one of the
-- orders of Checker/FanOut.antt.
pub mod Caching
pub mod Results
use dnsmon.Base.{
  ℕ, List, [], ◌∷◌, ◌++◌, Option, none, some, Bool, true, false, not, Text, bytes, is_empty, ltb,
  text_eq, member, if◌then◌else◌, ◌||◌, lookup,
}
use dnsmon.Dns.{Resolver, Status, Answer, ResolverResult, CheckSummary}
use dnsmon.Dns as Dns
use dnsmon.Dns.RecordTypes.{parse_type, is_supported}
use dnsmon.Registry.{get}
use dnsmon.World.{Result, ok, err, failed, wrap, Error, error_text, Action, ◌>>=◌, pure}
use dnsmon.Checker.Request.{CheckRequest, validate_request, is_private_or_local}
use dnsmon.Checker.ResolverList.{build_resolver_list, disabled_resolver_set}
use dnsmon.Checker.Summary.{Iterate, build_summary}
use dnsmon.Checker.State.{Checker, Codec}
use dnsmon.Checker.Permalink.{new_id}

-- `cache.Key(resolverID, name, qtype)`
unfoldable pub key_text : Text → Text → Text → Text
unfolding bytes
key_text id name qtype = id ++ (bytes "|" ++ (name ++ (bytes "|" ++ qtype)))

unfoldable pub cache_key : Codec → Text → Text → Text → Text
unfolding key_text
cache_key codec id name qtype = codec.sha1 (key_text id name qtype)

-- The number that `ParseType` gives, which is 0 for a type that it does not know.
unfoldable pub type_number : Text → ℕ
type_number qtype = elim (parse_type qtype) [ none ↦ 0 | some n ↦ n ]

-- What `Check` returns: an error, a check together with the error of its storage, or a check.
pub data Outcome : Type 0 where
  rejected : Error → Outcome
  unsaved : Dns.Check → Error → Outcome
  checked : Dns.Check → Outcome

abbrev pub saved : Dns.Check → Result (Unit {0}) → Outcome
saved check (ok u) = checked check
saved check (err e) = unsaved check (wrap (bytes "saving check") e)

failure : Resolver → Error → ℕ → ResolverResult
failure r e now = record {
  resolver = r;
  status = Status.error;
  answers = [];
  authority = [];
  additional = [];
  dnssec = none;
  duration_ms = 0;
  error = error_text e;
  queried_at = now;
}

abbrev use_hit :
    {W : Type 0} → Action W ResolverResult → Option ResolverResult → Action W ResolverResult
use_hit fresh none = fresh
use_hit fresh (some x) = pure x

module _ {W : Type 0} (c : Checker W) where
  -- What is in the cache, where it can be read.
  unfoldable pub cached : Text → Action W (Option ResolverResult)
  cached key = do
    hit ← c.cache.get key
    pure (elim hit [ none ↦ none | some raw ↦ c.codec.unmarshal raw ])

  unfoldable pub remember : Text → ResolverResult → Action W (Unit {0})
  remember key x = elim (c.codec.marshal x) [
    | none ↦ pure tt
    | some raw ↦ do done ← c.cache.set key raw c.cfg.cache_ttl; pure tt
  ]

  -- What is done with the outcome of the query: a result is remembered unless `no_cache`.
  unfoldable pub answered :
      Resolver → Text → Text → Bool → Result ResolverResult → Action W ResolverResult
  unfolding remember cache_key failure
  answered r name qtype no_cache (err e) = do now ← c.machine.now; pure (failure r e now)
  answered r name qtype true (ok x) = pure x
  answered r name qtype false (ok x) = do
    done ← remember (cache_key c.codec r.id name qtype) x
    pure x

  unfoldable pub live : Resolver → Text → Text → Bool → Action W ResolverResult
  unfolding answered type_number
  live r name qtype no_cache = do
    answer ← c.client.query r name (type_number qtype)
    answered r name qtype no_cache answer

  unfoldable pub query_with_cache : Resolver → Text → Text → Bool → Action W ResolverResult
  unfolding cached live cache_key
  query_with_cache r name qtype true = live r name qtype true
  query_with_cache r name qtype false = do
    hit ← cached (cache_key c.codec r.id name qtype)
    use_hit (live r name qtype false) hit

  unfoldable pub fan_out : Text → Text → Bool → List Resolver → Action W (List ResolverResult)
  unfolding query_with_cache
  fan_out name qtype no_cache [] = pure []
  fan_out name qtype no_cache (r ∷ rs) = do
    x ← query_with_cache r name qtype no_cache
    xs ← fan_out name qtype no_cache rs
    pure (x ∷ xs)

  unfoldable pub assemble : Iterate → CheckRequest → List ResolverResult → ℕ → ℕ → Dns.Check
  assemble iterate req results id_time now = record {
    id = new_id c.codec.sha256 req.name req.type id_time;
    name = req.name;
    type = req.type;
    created_at = now;
    results = results;
    summary = build_summary iterate results;
  }

  -- The check is stored where the request asks for it.
  unfoldable pub keep_check : Bool → Dns.Check → Action W Outcome
  keep_check false ck = pure (checked ck)
  keep_check true ck = do done ← c.storage.save_check ck; pure (saved ck done)

  -- The part of `Check` behind the choice of the resolvers.
  unfoldable pub run_check : Iterate → CheckRequest → List Resolver → Action W Outcome
  unfolding fan_out assemble keep_check
  run_check iterate req rs = do
    results ← fan_out req.name req.type req.no_cache rs
    id_time ← c.machine.now
    now ← c.machine.now
    keep_check req.save (assemble iterate req results id_time now)

  unfoldable pub run_listed : Iterate → CheckRequest → Result (List Resolver) → Action W Outcome
  unfolding run_check
  run_listed iterate req (err e) = pure (rejected e)
  run_listed iterate req (ok rs) = run_check iterate req rs

  unfoldable pub run_validated : Iterate → CheckRequest → Result (Unit {0}) → Action W Outcome
  unfolding run_listed
  run_validated iterate req (err e) = pure (rejected e)
  run_validated iterate req (ok u) = do
    listed ← build_resolver_list c.registry c.storage req
    run_listed iterate req listed

  -- `Check`
  unfoldable pub check : Iterate → CheckRequest → Action W Outcome
  unfolding run_validated
  check iterate req = run_validated iterate req (validate_request req)
