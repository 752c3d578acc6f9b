-- ===== src/Api/CheckRoutes.antt =====
-- internal/api/v1/check.go, lookup.go, trace.go, reverse.go and resolvers.go. What `validator` and
-- chi's router make of a request is an argument: the text of the error of `validate.Struct`, and the
-- texts of the path and the query.
use dnsmon.Base.{
  ℕ, List, [], ◌∷◌, ◌++◌, map, Option, none, some, Bool, true, false, not, Text, bytes, is_empty,
  split, join, trim_space, decimal, keep, ◌/◌, ◌%◌, if◌then◌else◌,
}
use mathlib.Core.List.{reverse}
use dnsmon.Dns.{Resolver, ResolverResult, TraceResult}
use dnsmon.Dns as Dns
use dnsmon.Dns.Ip.{Ip, v4, v6, parse_ip}
use dnsmon.Dns.Records.{hex_byte}
use dnsmon.Registry.{Registry, get, filter}
use dnsmon.World.{Result, ok, err, failed, error_text, Action, ◌>>=◌, pure, Storage}
use dnsmon.Checker.Request.{matches_domain}
use dnsmon.Checker.Request as Request
use dnsmon.Checker.Check.{Outcome, rejected, unsaved, checked, check}
use dnsmon.Checker.Lookup as Lookup
use dnsmon.Checker.Summary.{Iterate}
use dnsmon.Checker.State.{Checker}
use dnsmon.Api.{
  Reply, refusal, value, invalid_input, invalid_domain, not_found_code, bad_body, missing_or,
}

pub record CheckRequest : Type 0 where
  pub name : Text
  pub type : Text
  pub resolvers : List Text
  pub custom_resolvers : List Resolver
  pub save : Bool

pub record LookupRequest : Type 0 where
  pub name : Text
  pub type : Text
  pub resolver : Text
  pub protocol : Text

pub record TraceRequest : Type 0 where
  pub name : Text
  pub type : Text

pub record ReverseRequest : Type 0 where
  pub ip : Text
  pub resolvers : List Text

-- The reply to what the checker returns: its errors are those of the request.
unfoldable pub answered : {A : Type 0} → Result A → Reply A
answered (ok a) = value 200 a
answered (err e) = refusal 400 invalid_input (error_text e)

-- The reply to a check, where an error of the storage counts as one of the request too.
checked_reply : Outcome → Reply Dns.Check
checked_reply (rejected e) = refusal 400 invalid_input (error_text e)
checked_reply (unsaved ck e) = refusal 400 invalid_input (error_text e)
checked_reply (checked ck) = value 200 ck

-- The handlers behind the decoded body and `validate.Struct`.
validated :
    {W A R : Type 0} → (R → Option Text) → (R → Action W (Reply A)) → Option R → Action W (Reply A)
validated lacks handle none = pure bad_body
validated lacks handle (some req) = elim (lacks req) [
  | none ↦ handle req
  | some message ↦ pure (refusal 400 invalid_input message)
]

invalid_name : {A : Type 0} → Reply A
unfolding bytes
invalid_name = refusal 400 invalid_domain (bytes "Invalid domain name.")

-- The nibbles of a byte in hexadecimal, as texts.
nibbles : List ℕ → List Text
unfolding hex_byte
nibbles [] = []
nibbles (b ∷ bs) = (hex_byte (b / 16) ∷ []) ∷ (hex_byte (b % 16) ∷ []) ∷ nibbles bs

ptr_name : Ip → Text
unfolding nibbles join decimal bytes
ptr_name (v4 a b c d) =
    join (bytes ".") (decimal d ∷ decimal c ∷ decimal b ∷ decimal a ∷ []) ++ bytes ".in-addr.arpa."
ptr_name (v6 bs) = join (bytes ".") (reverse (nibbles bs)) ++ bytes ".ip6.arpa."

-- `toPTRName(ipStr)`
to_ptr_name : Text → Result Text
unfolding ptr_name parse_ip bytes
to_ptr_name s = elim (parse_ip s) [
  | none ↦ err (failed (bytes "invalid IP address: " ++ s))
  | some ip ↦ ok (ptr_name ip)
]

-- The request of `PostReverse`, which asks for a private name too.
reverse_request : Text → List Text → Request.CheckRequest
unfolding bytes
reverse_request name resolvers = record {
  name = name;
  type = bytes "PTR";
  resolver_ids = resolvers;
  custom_resolvers = [];
  save = false;
  allow_private = true;
  no_cache = false;
}

unfoldable pub check_request : CheckRequest → Request.CheckRequest
check_request req = record {
  name = req.name;
  type = req.type;
  resolver_ids = req.resolvers;
  custom_resolvers = req.custom_resolvers;
  save = req.save;
  allow_private = false;
  no_cache = false;
}

-- `countries` of the query: the parts between commas that are not blank.
countries_of : Text → List Text
unfolding split trim_space keep
countries_of country =
    if is_empty country
    then []
    else keep (λ (c : Text). not (is_empty c)) (map trim_space (split b',' country))

-- `ListResolvers`
unfoldable pub list_resolvers : Registry → Text → Text → Reply (List Resolver)
unfolding countries_of filter
list_resolvers registry country q = value 200 (filter registry (countries_of country) q)

-- `GetResolver`
unfoldable pub get_resolver : Registry → Text → Reply Resolver
unfolding get bytes
get_resolver registry id = elim (get registry id) [
  | none ↦ refusal 404 not_found_code (bytes "Resolver not found.")
  | some r ↦ value 200 r
]

found_check : Result Dns.Check → Reply Dns.Check
unfolding missing_or bytes
found_check (ok ck) = value 200 ck
found_check (err e) = missing_or (bytes "Check not found.") (bytes "Failed to retrieve check.") e

-- `GetCheck`
unfoldable pub get_check : {W : Type 0} → Storage W → Text → Action W (Reply Dns.Check)
unfolding found_check
get_check store id = do r ← store.get_check id; pure (found_check r)

module _ {W : Type 0} (c : Checker W) (iterate : Iterate) where
  checked_as : Request.CheckRequest → Action W (Reply Dns.Check)
  unfolding check checked_reply
  checked_as req = do outcome ← check c iterate req; pure (checked_reply outcome)

  check_valid : CheckRequest → Action W (Reply Dns.Check)
  unfolding checked_as check_request matches_domain invalid_name
  check_valid req =
      if not (matches_domain req.name) then pure invalid_name else checked_as (check_request req)

  -- `PostCheck`
  unfoldable pub post_check :
      (CheckRequest → Option Text) → Option CheckRequest → Action W (Reply Dns.Check)
  unfolding validated check_valid
  post_check lacks body = validated lacks check_valid body

  lookup_valid : LookupRequest → Action W (Reply ResolverResult)
  unfolding Lookup.lookup answered
  lookup_valid req = do
    r ← Lookup.lookup c (record {
      name = req.name;
      type = req.type;
      resolver = req.resolver;
      protocol = req.protocol;
    })
    pure (answered r)

  -- `PostLookup`
  unfoldable pub post_lookup :
      (LookupRequest → Option Text) → Option LookupRequest → Action W (Reply ResolverResult)
  unfolding validated lookup_valid
  post_lookup lacks body = validated lacks lookup_valid body

  reverse_named : ReverseRequest → Result Text → Action W (Reply Dns.Check)
  unfolding checked_as reverse_request bytes
  reverse_named req (err e) =
      pure (refusal 400 invalid_input (bytes "Cannot convert IP to PTR name: " ++ error_text e))
  reverse_named req (ok name) = checked_as (reverse_request name req.resolvers)

  reverse_valid : ReverseRequest → Action W (Reply Dns.Check)
  unfolding reverse_named to_ptr_name
  reverse_valid req = reverse_named req (to_ptr_name req.ip)

  -- `PostReverse`
  unfoldable pub post_reverse :
      (ReverseRequest → Option Text) → Option ReverseRequest → Action W (Reply Dns.Check)
  unfolding validated reverse_valid
  post_reverse lacks body = validated lacks reverse_valid body

trace_valid :
    {W : Type 0}
    → (Text → Text → Action W (Result TraceResult))
    → TraceRequest
    → Action W (Reply TraceResult)
unfolding answered matches_domain invalid_name
trace_valid trace req =
    if not (matches_domain req.name)
    then pure invalid_name
    else do r ← trace req.name req.type; pure (answered r)

-- `PostTrace`, where `trace` is the checker's.
unfoldable pub post_trace :
    {W : Type 0}
    → (Text → Text → Action W (Result TraceResult))
    → (TraceRequest → Option Text)
    → Option TraceRequest
    → Action W (Reply TraceResult)
unfolding validated trace_valid
post_trace trace lacks body = validated lacks (trace_valid trace) body
