-- ===== src/Checker/Summary/Counts.antt =====
-- What the counts of a summary add up to.
use mathlib.Core.Path.{ap₂}
use dnsmon.Base.{
  ℕ, suc, ◌+◌, ◌≡◌, refl, sym, ap, ◌∙◌, lookup, List, [], ◌∷◌, Text, arith, count_of, count_of-bump,
  total_count, total_count-bump, length, text_eq, if◌then◌else◌, HasDistinctKeys,
  bump-HasDistinctKeys, Bool, false,
}
use dnsmon.Dns.{Status, ResolverResult, CheckSummary}
use dnsmon.Checker.Summary.{
  answers_key, tally_by, tally_one, tally, Iterate, blank, converge, build_summary,
}

-- Whether a result is OK and its answers have the key.
unfoldable pub serves : Text → ResolverResult → Bool
serves k r = elim r.status [ Status.ok ↦ text_eq (answers_key r.answers) k | _ ↦ false ]

-- How many OK results have answers with this key.
unfoldable pub serving : Text → List ResolverResult → ℕ
serving k [] = 0
serving k (r ∷ rs) = if serves k r then suc (serving k rs) else serving k rs

tally-partition :
    (s : CheckSummary) (rs : List ResolverResult)
    → (tally s rs).responded + (tally s rs).timeouts + (tally s rs).errors
      ≡ s.responded + s.timeouts + s.errors + length rs
unfolding tally tally_one
tally-partition s [] = omega arith
tally-partition s (r ∷ rs) = ground (arith, tally-partition (tally_one s r) rs)

tally-total_count :
    (s : CheckSummary) (rs : List ResolverResult)
    → total_count s.consensus + s.nxdomain ≡ s.responded
    → total_count (tally s rs).consensus + (tally s rs).nxdomain ≡ (tally s rs).responded
unfolding tally tally_one
tally-total_count s [] h = h
tally-total_count s (r ∷ rs) h =
    tally-total_count (tally_one s r) rs
      (ground (arith, total_count-bump (answers_key r.answers) s.consensus))

tally_one-serves :
    (k : Text) (s : CheckSummary) (r : ResolverResult)
    → count_of k (tally_one s r).consensus
      ≡ (if serves k r then count_of k s.consensus + 1 else count_of k s.consensus)
unfolding tally_one serves
tally_one-serves k s r = ground (arith, count_of-bump (answers_key r.answers) k s.consensus)

tally-serving :
    (k : Text) (s : CheckSummary) (rs : List ResolverResult)
    → count_of k (tally s rs).consensus ≡ count_of k s.consensus + serving k rs
unfolding tally serving
tally-serving k s [] = omega arith
tally-serving k s (r ∷ rs) =
    ground (arith, tally-serving k (tally_one s r) rs, tally_one-serves k s r)

tally-total_resolvers :
    (s : CheckSummary) (rs : List ResolverResult) → (tally s rs).total_resolvers ≡ s.total_resolvers
unfolding tally tally_one
tally-total_resolvers s [] = refl
tally-total_resolvers s (r ∷ rs) = ground (arith, tally-total_resolvers (tally_one s r) rs)

tally_by-HasDistinctKeys :
    (st : Status) (s : CheckSummary) (r : ResolverResult)
    → HasDistinctKeys s.consensus
    → HasDistinctKeys (tally_by st s r).consensus
unfolding tally_by
tally_by-HasDistinctKeys Status.ok s r h =
    bump-HasDistinctKeys (answers_key r.answers) s.consensus h
tally_by-HasDistinctKeys _ s r h = h

pub tally-HasDistinctKeys :
    (s : CheckSummary) (rs : List ResolverResult)
    → HasDistinctKeys s.consensus
    → HasDistinctKeys (tally s rs).consensus
unfolding tally tally_one
tally-HasDistinctKeys s [] h = h
tally-HasDistinctKeys s (r ∷ rs) h =
    tally-HasDistinctKeys (tally_one s r) rs (tally_by-HasDistinctKeys r.status s r h)

-- The counters that `converge` leaves alone.
abbrev pub SameCounters : CheckSummary → CheckSummary → Type 0
SameCounters s t =
    (s.total_resolvers ≡ t.total_resolvers)
    × (s.responded ≡ t.responded)
    × (s.nxdomain ≡ t.nxdomain)
    × (s.timeouts ≡ t.timeouts)
    × (s.errors ≡ t.errors)
    × (s.consensus ≡ t.consensus)

pub build_summary-SameCounters :
    (iterate : Iterate) (results : List ResolverResult)
    → SameCounters (build_summary iterate results) (tally (blank (length results)) results)
unfolding build_summary converge
build_summary-SameCounters iterate results = ground arith

module _ (iterate : Iterate) (results : List ResolverResult) where
  -- The summary counts each result once: as responded, as timed out or as an error.
  pub build_summary-partition :
      let s = build_summary iterate results in
      (s.total_resolvers ≡ length results) × (s.responded + s.timeouts + s.errors ≡ length results)
  build_summary-partition = ground (
    arith,
    build_summary-SameCounters iterate results,
    tally-partition (blank (length results)) results,
    tally-total_resolvers (blank (length results)) results,
  )

  -- The consensus map has for each key the number of OK results whose answers have that key, and
  -- its counts together with the results that found no such domain make up the responses.
  pub build_summary-consensus :
      (k : Text)
      → let s = build_summary iterate results in
        (count_of k s.consensus ≡ serving k results)
        × (total_count s.consensus + s.nxdomain ≡ s.responded)
  build_summary-consensus k =
      let same = build_summary-SameCounters iterate results in
      let total = tally-total_count (blank (length results)) results (unfold total_count in refl) in
      (
        ap (count_of k) same.5
            ∙ tally-serving k (blank (length results)) results
            ∙ (unfold count_of lookup in omega arith),
        ap₂ ◌+◌ (ap total_count same.5) same.2 ∙ total ∙ sym same.1,
      )
