-- ===== src/Tests/Summaries.antt =====
-- Summaries, ids and requests.
use mathlib.Core.List.Perm
use dnsmon.Base.{
  ℕ, ◌+◌, ◌*◌, ◌/◌, ◌%◌, ◌^◌, ◌≤◌, ◌≡◌, refl, ◌↔◌, List, [], ◌∷◌, none, some, true, Text, bytes,
  All, length, count_of, total_count, ltb→lt, take, ◌++◌, decimal,
}
use dnsmon.Dns.{Status, ResolverResult}
use dnsmon.World.{ok}
use dnsmon.Checker.Request.{validate_request, validate_request_iff, IsAdmissible, is_domain_byte}
use dnsmon.Checker.Summary.{Iterate, build_summary, answers_key}
use dnsmon.Checker.Summary.Counts.{serving, build_summary-partition, build_summary-consensus}
use dnsmon.Checker.Summary.Eta.{IsMajority, build_summary-IsMajority}
use dnsmon.Checker.Summary.Ttls.{maximum, diverging_ttls}
use dnsmon.Checker.Permalink.{new_id}
use dnsmon.Checker.Permalink.Digits.{number62, number256, new_id-number62}
use dnsmon.Tests.Fixtures.{quad9, google, result_of, reply, request}

abbrev results : List ResolverResult
results =
    reply quad9
    ∷ reply google
    ∷ reply google
    ∷ result_of quad9 Status.timeout []
    ∷ result_of google Status.nxdomain []
    ∷ []

abbrev same : Iterate
same m = m

build_summary-IsMajority_example :
    (key : Text) × IsMajority results key
    × ((build_summary same results).converged_pct
        ≡ serving key results * 100 / (build_summary same results).responded)
    × ((build_summary same results).propagation_eta ≡ some (maximum (diverging_ttls key results)))
unfolding build_summary dnsmon.Checker.Summary.tally_one dnsmon.Checker.Summary.max_ttl
    dnsmon.Checker.Summary.is_diverging dnsmon.Base.text_eq answers_key dnsmon.Base.join
    dnsmon.Base.sort_texts dnsmon.Checker.Summary.majority dnsmon.Base.bump dnsmon.Base.insert
    dnsmon.Base.lookup
build_summary-IsMajority_example =
    build_summary-IsMajority same results (λ m. Perm.refl m) (ltb→lt _ _ refl)

share : (build_summary same results).converged_pct ≡ 50
unfolding build_summary dnsmon.Checker.Summary.tally_one dnsmon.Checker.Summary.majority
    dnsmon.Base.bump dnsmon.Base.insert dnsmon.Base.text_eq answers_key dnsmon.Base.join
    dnsmon.Base.sort_texts dnsmon.Base.lookup
share = refl

estimate : (build_summary same results).propagation_eta ≡ some 300
unfolding build_summary dnsmon.Checker.Summary.tally_one dnsmon.Checker.Summary.max_ttl
    dnsmon.Checker.Summary.is_diverging dnsmon.Base.text_eq answers_key dnsmon.Base.join
    dnsmon.Base.sort_texts dnsmon.Checker.Summary.majority dnsmon.Base.bump dnsmon.Base.insert
    dnsmon.Base.lookup
estimate = refl

build_summary-partition_example :
    let s = build_summary same results in
    (s.total_resolvers ≡ length results) × (s.responded + s.timeouts + s.errors ≡ length results)
build_summary-partition_example = build_summary-partition same results

build_summary-consensus_example :
    let s = build_summary same results in
    (count_of (bytes "8.8.8.8") s.consensus ≡ serving (bytes "8.8.8.8") results)
    × (total_count s.consensus + s.nxdomain ≡ s.responded)
build_summary-consensus_example = build_summary-consensus same results (bytes "8.8.8.8")

new_id-number62_example :
    let id = new_id (λ s. s) (bytes "example.com") (bytes "A") 5 in
    (length id ≡ 8)
    × All (λ c. is_domain_byte c ≡ true) id
    × (number62 0 id
        ≡ number256
            (take 8 (bytes "example.com" ++ bytes "|" ++ bytes "A" ++ bytes "|" ++ decimal 5))
          % 2 ^ 64
          % 62 ^ 8)
new_id-number62_example = new_id-number62 (λ s. s) (bytes "example.com") (bytes "A") 5

validate_request_iff_example : (validate_request request ≡ ok tt) ↔ IsAdmissible request
validate_request_iff_example = validate_request_iff request

accepted : validate_request request ≡ ok tt
unfolding validate_request bytes dnsmon.Checker.Request.matches_domain
    dnsmon.Dns.RecordTypes.is_supported dnsmon.Base.text_eq
    dnsmon.Checker.Request.is_private_or_local dnsmon.Base.has_suffix dnsmon.Base.to_lower
    dnsmon.Dns.Ip.parse_ip
accepted = refl
