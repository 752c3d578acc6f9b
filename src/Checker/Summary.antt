-- ===== src/Checker/Summary.antt =====
-- internal/checker/checker.go, `buildSummary` and `answersKey`. The order in which Go ranges over
-- a map is not specified: it is the argument `iterate`, a function of the map's entries.
pub mod Counts
pub mod Consensus
pub mod Ttls
pub mod Eta
use dnsmon.Base.{
  ℕ, ◌+◌, ◌*◌, ◌/◌, Option, none, some, List, [], ◌∷◌, map, Bool, not, Text, bytes, bump, member,
  ltb, if◌then◌else◌, length, text_eq, join, sort_texts,
}
use dnsmon.Dns.{Status, Answer, ResolverResult, CheckSummary}

unfoldable pub answers_key : List Answer → Text
unfolding bytes
answers_key [] = bytes "<empty>"
answers_key (a ∷ answers) =
    join (bytes ",") (sort_texts (map (λ (b : Answer). b.value) (a ∷ answers)))

-- The cases of the first loop's `switch`.
unfoldable pub tally_by : Status → CheckSummary → ResolverResult → CheckSummary
tally_by Status.ok s r = record s {
  responded = s.responded + 1;
  consensus = bump (answers_key r.answers) s.consensus;
}
tally_by Status.nxdomain s r = record s { responded = s.responded + 1; nxdomain = s.nxdomain + 1 }
tally_by Status.timeout s r = record s { timeouts = s.timeouts + 1 }
tally_by _ s r = record s { errors = s.errors + 1 }

unfoldable pub tally_one : CheckSummary → ResolverResult → CheckSummary
unfolding tally_by
tally_one s r = tally_by r.status s r

unfoldable pub tally : CheckSummary → List ResolverResult → CheckSummary
tally s [] = s
tally s (r ∷ rs) = tally (tally_one s r) rs

abbrev pub Iterate : Type 0
Iterate = List (Text × ℕ) → List (Text × ℕ)

-- The set `seen` of the keys that the range meets.
unfoldable pub seen_keys : List Text → List (Text × ℕ) → List Text
seen_keys seen [] = seen
seen_keys seen (e ∷ es) = seen_keys (if member e.0 seen then seen else e.0 ∷ seen) es

-- The loop for the majority: a key is taken only where its count is above the count so far.
unfoldable pub majority_from : Text → ℕ → List (Text × ℕ) → Text × ℕ
majority_from key n [] = (key, n)
majority_from key n (e ∷ es) =
    majority_from (if ltb n e.1 then e.0 else key) (if ltb n e.1 then e.1 else n) es

unfoldable pub majority : List (Text × ℕ) → Text × ℕ
unfolding majority_from
majority es = majority_from [] 0 es

max_answer_ttl : ℕ → List Answer → ℕ
max_answer_ttl m [] = m
max_answer_ttl m (a ∷ rest) = max_answer_ttl (if ltb m a.ttl then a.ttl else m) rest

-- Whether the last loop looks at a result: it is OK and its answers are not the majority's.
unfoldable pub is_diverging : Text → ResolverResult → Bool
is_diverging key r = elim r.status [
  | Status.ok ↦ not (text_eq (answers_key r.answers) key)
  | _ ↦ Bool.false
]

unfoldable pub max_ttl : Text → ℕ → List ResolverResult → ℕ
unfolding max_answer_ttl
max_ttl key m [] = m
max_ttl key m (r ∷ rs) =
    max_ttl key (if is_diverging key r then max_answer_ttl m r.answers else m) rs

abbrev blank : ℕ → CheckSummary
blank total = record {
  total_resolvers = total;
  responded = 0;
  nxdomain = 0;
  timeouts = 0;
  errors = 0;
  unique_answer_sets = 0;
  consensus = [];
  converged_pct = 0;
  propagation_eta = none;
}

-- The share of the majority and the estimated time until all resolvers agree.
unfoldable pub converge : Iterate → List ResolverResult → CheckSummary → CheckSummary
converge iterate results s =
    let best = majority (iterate s.consensus) in
    if ltb 0 s.responded
    then record s {
      converged_pct = best.1 * 100 / s.responded;
      propagation_eta = some (max_ttl best.0 0 results);
    }
    else s

unfoldable pub build_summary : Iterate → List ResolverResult → CheckSummary
unfolding tally seen_keys converge
build_summary iterate results =
    let s = tally (blank (length results)) results in
    converge iterate results
      (record s { unique_answer_sets = length (seen_keys [] (iterate s.consensus)) })
