-- ===== src/Monitor/Consensus.antt =====
-- The values that a monitor observes are the ones that most OK results have.
use dnsmon.Base.{
  ℕ, suc, ◌+◌, ◌≤◌, ◌≡◌, refl, sym, ap, ◌∙◌, List, [], ◌∷◌, Option, none, some, Text, bytes, arith,
  Bool, false, text_eq, text_eq_iff, if◌then◌else◌, join, lookup, lookup-insert, insert, bump,
  bump-HasDistinctKeys, HasDistinctKeys, count_of, count_of-bump, Bool-cases, inl, inr,
}
use mathlib.Core.Option.{some-injective}
use dnsmon.Dns.{Status, ResolverResult}
use dnsmon.Checker.Summary.{Iterate, majority}
use dnsmon.Checker.Summary.Consensus.{Ranges, majority-count_of}
use dnsmon.Monitor.{answer_values, normalize, Counts, count_by, count_all, values_at, consensus}

-- The text under which a list of values is counted.
abbrev pub text_of : List Text → Text
text_of vs = join (bytes ",") vs

unfoldable pub counts_for : Text → Status → List Text → Bool
counts_for k Status.ok vs = text_eq (text_of vs) k
counts_for k _ vs = false

-- How many OK results have values with this text.
unfoldable pub serving_text : Text → List ResolverResult → ℕ
unfolding counts_for
serving_text k [] = 0
serving_text k (r ∷ rs) =
    if counts_for k r.status (normalize (answer_values r))
    then suc (serving_text k rs)
    else serving_text k rs

record IsTidy (c : Counts) : Type 0 where
  keyed : (k : Text) (vs : List Text) → lookup k c.repr ≡ some vs → text_of vs ≡ k
  missing : (k : Text) → lookup k c.repr ≡ none → count_of k c.counts ≡ 0
  distinct : HasDistinctKeys c.counts

keyed-insert :
    (vs ws : List Text) (k : Text) (m : List (Text × List Text))
    → ((k : Text) (vs : List Text) → lookup k m ≡ some vs → text_of vs ≡ k)
    → lookup k (insert (text_of vs) vs m) ≡ some ws
    → text_of ws ≡ k
keyed-insert vs ws k m keyed e =
    let found = sym (lookup-insert (text_of vs) k vs m) ∙ e in
    elim (Bool-cases (text_eq (text_of vs) k)) [
      | inl here ↦
          ap text_of (sym (some-injective _ _ (rw here at found)))
          ∙ (text_eq_iff (text_of vs) k).0 here
      | inr other ↦ keyed k ws (rw other at found)
    ]

missing-insert :
    (vs : List Text) (k : Text) (c : Counts)
    → (lookup k c.repr ≡ none → count_of k c.counts ≡ 0)
    → lookup k (insert (text_of vs) vs c.repr) ≡ none
    → count_of k (bump (text_of vs) c.counts) ≡ 0
missing-insert vs k c missing e =
    let found = sym (lookup-insert (text_of vs) k vs c.repr) ∙ e in
    let counted_once = count_of-bump (text_of vs) k c.counts in
    elim (Bool-cases (text_eq (text_of vs) k)) [
      | inl here ↦ let bad : some vs ≡ none = rw here at found in cc
      | inr other ↦ (rw other at counted_once) ∙ missing (rw other at found)
    ]

count_by-IsTidy : (st : Status) (vs : List Text) (c : Counts) → IsTidy c → IsTidy (count_by st vs c)
unfolding count_by
count_by-IsTidy Status.ok vs c h = record {
  keyed = λ k ws e. keyed-insert vs ws k c.repr h.keyed e;
  missing = λ k e. missing-insert vs k c (h.missing k) e;
  distinct = bump-HasDistinctKeys (text_of vs) c.counts h.distinct;
}
count_by-IsTidy _ vs c h = h

count_by-count :
    (k : Text) (st : Status) (vs : List Text) (c : Counts)
    → count_of k (count_by st vs c).counts
      ≡ (if counts_for k st vs then count_of k c.counts + 1 else count_of k c.counts)
unfolding count_by counts_for
count_by-count k Status.ok vs c = count_of-bump (text_of vs) k c.counts
count_by-count k _ vs c = refl

count_all-IsTidy : (c : Counts) (rs : List ResolverResult) → IsTidy c → IsTidy (count_all c rs)
unfolding count_all
count_all-IsTidy c [] h = h
count_all-IsTidy c (r ∷ rs) h =
    count_all-IsTidy (count_by r.status (normalize (answer_values r)) c) rs
      (count_by-IsTidy r.status (normalize (answer_values r)) c h)

count_all-serving_text :
    (k : Text) (c : Counts) (rs : List ResolverResult)
    → count_of k (count_all c rs).counts ≡ count_of k c.counts + serving_text k rs
unfolding count_all serving_text
count_all-serving_text k c [] = omega arith
count_all-serving_text k c (r ∷ rs) =
    let vs = normalize (answer_values r) in
    ground
      (arith, count_all-serving_text k (count_by r.status vs c) rs, count_by-count k r.status vs c)

none_counted : Counts
none_counted = record { counts = []; repr = [] }

none_counted-IsTidy : IsTidy none_counted
unfolding none_counted lookup count_of
none_counted-IsTidy = record { keyed = λ k vs e. cc; missing = λ k e. refl; distinct = tt }

module _ (iterate : Iterate) (results : List ResolverResult) (ranges : Ranges iterate) where
  counted : Counts
  unfolding none_counted
  counted = count_all none_counted results

  served : (k : Text) → count_of k counted.counts ≡ serving_text k results
  unfolding counted
  served k =
      count_all-serving_text k none_counted results
      ∙ (unfold none_counted count_of lookup in omega arith)

  -- What the code looks up under a greatest key has a greatest count.
  greatest :
      (best : Text) (o : Option (List Text))
      → lookup best counted.repr ≡ o
      → ((k : Text) → serving_text k results ≤ serving_text best results)
      → (k : Text)
      → serving_text k results
        ≤ serving_text (text_of (elim o [ none ↦ [] | some vs ↦ vs ])) results
  unfolding count_all counted
  greatest best none e bound k =
      let tidy = count_all-IsTidy none_counted results none_counted-IsTidy in
      omega (arith, bound k, served best, tidy.missing best e)
  greatest best (some vs) e bound k =
      let tidy = count_all-IsTidy none_counted results none_counted-IsTidy in
      rw (tidy.keyed best vs e) (bound k)

  -- In whatever order the map is ranged over: no list of values is that of more OK results than the
  -- observed one, where lists count as the same if their sorted values, joined by commas, are.
  pub consensus-greatest :
      (k : Text)
      → serving_text k results ≤ serving_text (text_of (consensus iterate results)) results
  unfolding consensus values_at counted none_counted
  consensus-greatest k =
      let (count, bound) =
        majority-count_of iterate counted.counts ranges
          (count_all-IsTidy none_counted results none_counted-IsTidy).distinct in
      let best = (majority (iterate counted.counts)).0 in
      greatest best (lookup best counted.repr) refl
        (λ j. omega (arith, bound j, served j, served best, count)) k
