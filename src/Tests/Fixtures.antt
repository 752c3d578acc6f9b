-- ===== src/Tests/Fixtures.antt =====
-- Two resolvers, their answers, and a world in which the checks run: a clock and the stored checks.
use dnsmon.Base.{ℕ, suc, List, [], ◌∷◌, none, some, true, false, Text, bytes}
use dnsmon.Dns.{Resolver, Status, Answer, ResolverResult, Check}
use dnsmon.Settings.{Settings, default_settings}
use dnsmon.World.{ok, err, not_found, Storage, Cache}
use dnsmon.Registry.{Registry, load, new_registry}
use dnsmon.Checker.Request.{CheckRequest}
use dnsmon.Checker.State.{Checker}

abbrev pub resolver_of : Text → Text → Resolver
resolver_of id ip = record {
  id = id;
  name = id;
  ip = ip;
  port = 53;
  protocol = bytes "udp";
  country = bytes "US";
  city = [];
  lat = 0;
  lng = 0;
  asn = 0;
  isp = [];
}

abbrev pub quad9 : Resolver
quad9 = resolver_of (bytes "quad9") (bytes "9.9.9.9")

abbrev pub google : Resolver
google = resolver_of (bytes "google") (bytes "8.8.8.8")

abbrev pub answer_of : Text → ℕ → Answer
answer_of value ttl = record {
  name = bytes "example.com";
  type = bytes "A";
  ttl = ttl;
  value = value;
}

abbrev pub result_of : Resolver → Status → List Answer → ResolverResult
result_of r status answers = record {
  resolver = r;
  status = status;
  answers = answers;
  authority = [];
  additional = [];
  dnssec = none;
  duration_ms = 7;
  error = [];
  queried_at = 1;
}

-- Each resolver answers with its own address.
abbrev pub reply : Resolver → ResolverResult
reply r = result_of r Status.ok (answer_of r.ip 300 ∷ [])

abbrev pub known : Registry
known = load (quad9 ∷ google ∷ []) new_registry

abbrev pub World : Type 0
World = ℕ × List Check

abbrev pub settings : Settings
settings = record default_settings { disabled_resolvers = bytes "quad9" ∷ [] }

abbrev pub storage : Storage World
storage = record {
  save_check = λ c w. (ok tt, (w.0, c ∷ w.1));
  get_check = λ id w. (err not_found, w);
  list_checks = λ m n w. (ok w.1, w);
  delete_check = λ id w. (ok tt, w);
  purge_old_checks = λ t w. (ok tt, w);
  get_settings = λ w. (ok settings, w);
  save_settings = λ s w. (ok tt, w);
  list_api_tokens = λ w. (ok [], w);
  create_api_token = λ t w. (ok tt, w);
  delete_api_token = λ id w. (ok tt, w);
  list_schedules = λ w. (ok [], w);
  save_schedule = λ s w. (ok tt, w);
  delete_schedule = λ id w. (ok tt, w);
  list_monitors = λ w. (ok [], w);
  get_monitor = λ id w. (err not_found, w);
  save_monitor = λ m w. (ok tt, w);
  delete_monitor = λ id w. (ok tt, w);
  list_monitor_events = λ id n w. (ok [], w);
  append_monitor_event = λ e w. (ok tt, w);
}

-- A cache that holds the same text under every key, and one that holds nothing.
abbrev pub full : Cache World
full = record { get = λ key w. (some (bytes "hit"), w); set = λ key raw ttl w. (ok tt, w) }

abbrev pub empty : Cache World
empty = record { get = λ key w. (none, w); set = λ key raw ttl w. (ok tt, w) }

abbrev pub checker : Checker World
checker = record {
  client = record { query = λ r name n w. (ok (reply r), (suc w.0, w.1)) };
  registry = known;
  cache = full;
  storage = storage;
  machine = record { now = λ w. (w.0, (suc w.0, w.1)); random = λ n w. (none, w) };
  codec = record {
    marshal = λ x. some (bytes "hit");
    unmarshal = λ raw. some (reply google);
    sha1 = λ s. s;
    sha256 = λ s. s;
  };
  cfg = record { per_resolver_concurrency = 2; default_protocol = bytes "udp"; cache_ttl = 60 };
}

abbrev pub request : CheckRequest
request = record {
  name = bytes "example.com";
  type = bytes "A";
  resolver_ids = [];
  custom_resolvers = [];
  save = true;
  allow_private = false;
  no_cache = true;
}
