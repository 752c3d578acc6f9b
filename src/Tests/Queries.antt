-- ===== src/Tests/Queries.antt =====
-- A query of a server, and a trace.
use dnsmon.Base.{
  ℕ, suc, ◌≡◌, refl, ◌≤◌, [], ◌∷◌, none, true, false, Text, bytes, pos, map, take, length, text_eq,
}
use dnsmon.Dns.{ResolverResult, TraceResult}
use dnsmon.World.{ok, Machine}
use dnsmon.Dns.Records.{Msg, RrData}
use dnsmon.Dns.Client.{Exchanged, Network, DnsConfig, query}
use dnsmon.Dns.Client.Attempts.{IsCounted, IsWithin, Reports, query_bounded, query-Reports}
use dnsmon.Checker.Trace.{NameService, root_servers, max_trace_steps, trace}
use dnsmon.Checker.Trace.Hops.{IsWalk, trace-IsWalk}
use dnsmon.Tests.Fixtures.{quad9}

-- A world that counts the exchanges, of which each times out.
abbrev silent : Network ℕ
silent = record {
  exchange = λ proto server q n. (Exchanged.failure (bytes "i/o timeout") true 5, suc n);
  done = λ n. (none, n);
}

abbrev still : Machine ℕ
still = record { now = λ n. (0, n); random = λ k n. (none, n) }

abbrev type_name : ℕ → Text
type_name n = bytes "A"

silent-IsCounted : IsCounted silent still type_name (λ n. n)
silent-IsCounted = record {
  exchange_adds = λ proto server q w. refl;
  done_keeps = λ w. refl;
  now_keeps = λ w. refl;
}

abbrev twice : DnsConfig
twice = record { default_protocol = bytes "udp"; retry = pos 2 }

query_bounded_example :
    IsWithin silent still type_name
      (λ n. n)
      (pos 2)
      4
      (query silent still type_name twice quad9 (bytes "example.com") 1 4).1
query_bounded_example =
    query_bounded silent still type_name (λ n. n) silent-IsCounted twice quad9 (bytes "example.com")
      1 4

query-Reports_example :
    let (x, w) = query silent still type_name twice quad9 (bytes "example.com") 1 4 in
    Reports silent still type_name twice quad9 (bytes "example.com") 1 0 4 x w
query-Reports_example = query-Reports silent still type_name twice quad9 (bytes "example.com") 1 4

-- Each server refers to another one, whose address it gives.
abbrev referral : Msg
referral = record {
  rcode = 0;
  authoritative = false;
  authenticated_data = false;
  answer = [];
  ns =
      record { name = bytes "com."; rrtype = 2; ttl = 60; body = RrData.ns (bytes "ns.com.") } ∷ [];
  extra =
      record { name = bytes "ns.com."; rrtype = 1; ttl = 60; body = RrData.a (bytes "9.9.9.9") }
      ∷ [];
}

abbrev referring : Network ℕ
referring = record {
  exchange = λ proto server q n. (Exchanged.response referral 5, suc n);
  done = λ n. (none, n);
}

abbrev nameless : NameService ℕ
nameless = record { lookup_ip_addr = λ name n. (none, n) }

trace-IsWalk_example :
    (r : TraceResult) × ((trace referring nameless still type_name
        (bytes "example.com")
        (bytes "A")
        0).0
      ≡ ok r)
    × (1 ≤ length r.steps)
    × (length r.steps ≤ max_trace_steps)
    × (map (λ s. s.ip) (take 1 r.steps) ≡ take 1 root_servers)
    × IsWalk r.steps
unfolding bytes dnsmon.Dns.RecordTypes.is_supported text_eq
trace-IsWalk_example =
    trace-IsWalk referring nameless still type_name (bytes "example.com") (bytes "A") 0 refl refl
