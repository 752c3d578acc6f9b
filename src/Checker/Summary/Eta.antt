-- ===== src/Checker/Summary/Eta.antt =====
-- What the share of the majority and the estimated time of a summary mean.
use mathlib.Core.Path.{ap₂}
use dnsmon.Base.{
  ℕ, ◌*◌, ◌/◌, ◌≤◌, ◌<◌, ◌≡◌, refl, sym, ap, ◌∙◌, inl, inr, ◌↔◌, List, [], ◌∷◌, Text, arith, some,
  none, count_of, ltb, ltb→lt, length, HasDistinctKeys, count_of-le-total_count, Bool-cases,
}
use dnsmon.Dns.{Status, ResolverResult, CheckSummary}
use dnsmon.Checker.Summary.{
  Iterate, max_ttl, seen_keys, tally, tally_by, tally_one, blank, converge, build_summary, majority,
}
use dnsmon.Checker.Summary.Counts.{
  serving, build_summary-SameCounters, build_summary-consensus, tally-HasDistinctKeys,
}
use dnsmon.Checker.Summary.Ttls.{diverging_ttls, maximum, max_ttl-maximum}
use dnsmon.Checker.Summary.Consensus.{Ranges, majority-count_of}

-- A key that as many OK results serve as any other.
abbrev pub IsMajority : List ResolverResult → Text → Type 0
IsMajority results key = (k : Text) → serving k results ≤ serving key results

converge-responded :
    (iterate : Iterate) (results : List ResolverResult) (s : CheckSummary)
    → 0 < s.responded
    → ((converge iterate results s).converged_pct
        ≡ (majority (iterate s.consensus)).1 * 100 / s.responded)
      × ((converge iterate results s).propagation_eta
          ≡ some (max_ttl (majority (iterate s.consensus)).0 0 results))
unfolding converge
converge-responded iterate results s h = ground arith

converge-silent :
    (iterate : Iterate) (results : List ResolverResult) (s : CheckSummary)
    → s.responded ≡ 0
    → converge iterate results s ≡ s
unfolding converge
converge-silent iterate results s h = rw h refl

converge-none :
    (iterate : Iterate) (results : List ResolverResult) (s : CheckSummary)
    → s.propagation_eta ≡ none
    → ((converge iterate results s).propagation_eta ≡ none) ↔ (s.responded ≡ 0)
unfolding converge
converge-none iterate results s h = ground arith

tally_by_blank :
    (st : Status) (s : CheckSummary) (r : ResolverResult)
    → ((tally_by st s r).propagation_eta ≡ s.propagation_eta)
      × ((tally_by st s r).converged_pct ≡ s.converged_pct)
unfolding tally_by
tally_by_blank Status.ok s r = (refl, refl)
tally_by_blank _ s r = (refl, refl)

tally_blank :
    (s : CheckSummary) (rs : List ResolverResult)
    → ((tally s rs).propagation_eta ≡ s.propagation_eta)
      × ((tally s rs).converged_pct ≡ s.converged_pct)
unfolding tally tally_one
tally_blank s [] = (refl, refl)
tally_blank s (r ∷ rs) =
    let (eta, pct) = tally_blank (tally_one s r) rs in
    let (eta', pct') = tally_by_blank r.status s r in (eta ∙ eta', pct ∙ pct')

share_le : (n r : ℕ) → n ≤ r → 0 < r → n * 100 / r ≤ 100
share_le n r h p = grind arith

-- The summary before the share and the estimate are set.
counted : Iterate → List ResolverResult → CheckSummary
counted iterate results =
    let s = tally (blank (length results)) results in
    record s { unique_answer_sets = length (seen_keys [] (iterate s.consensus)) }

build_summary-converge :
    (iterate : Iterate) (results : List ResolverResult)
    → build_summary iterate results ≡ converge iterate results (counted iterate results)
unfolding build_summary counted
build_summary-converge iterate results = refl

count_of-counted :
    (iterate : Iterate) (results : List ResolverResult) (k : Text)
    → count_of k (counted iterate results).consensus ≡ serving k results
unfolding counted
count_of-counted iterate results k =
    ap (count_of k) (sym (build_summary-SameCounters iterate results).5)
    ∙ (build_summary-consensus iterate results k).0

counted-responded :
    (iterate : Iterate) (results : List ResolverResult)
    → (build_summary iterate results).responded ≡ (counted iterate results).responded
unfolding counted
counted-responded iterate results = (build_summary-SameCounters iterate results).1

counted-HasDistinctKeys :
    (iterate : Iterate) (results : List ResolverResult)
    → HasDistinctKeys (counted iterate results).consensus
unfolding counted
counted-HasDistinctKeys iterate results = tally-HasDistinctKeys (blank (length results)) results tt

serving-le-responded :
    (iterate : Iterate) (results : List ResolverResult) (k : Text)
    → serving k results ≤ (build_summary iterate results).responded
serving-le-responded iterate results k = omega (
  arith,
  build_summary-consensus iterate results k,
  count_of-le-total_count k (build_summary iterate results).consensus,
)

counted_blank :
    (iterate : Iterate) (results : List ResolverResult)
    → ((counted iterate results).propagation_eta ≡ none)
      × ((counted iterate results).converged_pct ≡ 0)
unfolding counted
counted_blank iterate results = tally_blank (blank (length results)) results

module _ (iterate : Iterate) (results : List ResolverResult) (ranges : Ranges iterate) where
  -- Where a resolver responded, and in whatever order the map is ranged over: the summary gives the
  -- percentage of the responding resolvers that serve a key which no other key outnumbers, and the
  -- greatest TTL of the answers of the OK results that do not serve that key.
  pub build_summary-IsMajority :
      0 < (build_summary iterate results).responded
      → (key : Text) × IsMajority results key
        × ((build_summary iterate results).converged_pct
            ≡ serving key results * 100 / (build_summary iterate results).responded)
        × ((build_summary iterate results).propagation_eta
            ≡ some (maximum (diverging_ttls key results)))
  build_summary-IsMajority h =
      let s = counted iterate results in
      let (pct, eta) = converge-responded iterate results s (rw counted-responded at h) in
      let (greatest, bound) =
        majority-count_of iterate s.consensus ranges (counted-HasDistinctKeys iterate results) in
      let key = (majority (iterate s.consensus)).0 in
      let serves = sym greatest ∙ count_of-counted iterate results key in
      (
        key,
        λ k. omega (arith, bound k, serves, count_of-counted iterate results k),
        ap (λ (t : CheckSummary). t.converged_pct) (build_summary-converge iterate results)
            ∙ pct
            ∙ ap₂ (λ n r. n * 100 / r) serves (sym (counted-responded iterate results)),
        rw (build_summary-converge iterate results) (eta ∙ ap some (max_ttl-maximum key results)),
      )

  -- The estimate is missing exactly where no resolver responded, and the share is at most 100.
  build_summary-eta_none :
      (((build_summary iterate results).propagation_eta ≡ none)
        ↔ ((build_summary iterate results).responded ≡ 0))
      × ((build_summary iterate results).converged_pct ≤ 100)
  build_summary-eta_none =
      let none_iff =
        converge-none iterate results (counted iterate results) (counted_blank iterate results).0 in
      let same = build_summary-converge iterate results in
      let responded = counted-responded iterate results in
      (
        (λ e. responded ∙ none_iff.0 (rw same at e), λ e. rw same (none_iff.1 (sym responded ∙ e))),
        elim (Bool-cases (ltb 0 (build_summary iterate results).responded)) [
          | inl p ↦
              let (key, greatest, pct, eta) = build_summary-IsMajority (ltb→lt _ _ p) in
              rw pct (share_le _ _ (serving-le-responded iterate results key) (ltb→lt _ _ p))
          | inr p ↦
              let quiet : (build_summary iterate results).responded ≡ 0 = ground arith in
              rw same (
                rw
                  (converge-silent iterate results (counted iterate results)
                    (sym responded ∙ quiet))
                  (omega (arith, (counted_blank iterate results).1)))
        ],
      )
