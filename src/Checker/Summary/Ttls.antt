-- ===== src/Checker/Summary/Ttls.antt =====
-- The TTLs that the estimated time of a summary is made of.
use dnsmon.Base.{
  ℕ, ◌≤◌, ◌≡◌, refl, sym, ap, ◌∙◌, inl, inr, List, [], ◌∷◌, ◌++◌, map, Text, arith, All, Bool, true,
  false, not, ◌&&◌, if◌then◌else◌, ltb, Bool-cases,
}
use dnsmon.Dns.{Answer, Status, ResolverResult}
use dnsmon.Checker.Summary.{is_diverging, max_answer_ttl, max_ttl}
use dnsmon.Checker.Summary.Counts.{serves}

is_ok : Status → Bool
is_ok Status.ok = true
is_ok _ = false

-- Whether a result is OK and its answers do not have the key.
unfoldable pub is_behind : Text → ResolverResult → Bool
unfolding is_ok
is_behind key r = is_ok r.status && not (serves key r)

is_diverging_lem : (key : Text) (r : ResolverResult) → is_diverging key r ≡ is_behind key r
unfolding is_diverging is_behind serves
is_diverging_lem key r = ground arith

-- The TTLs of all answers of the OK results that do not serve the key.
unfoldable pub diverging_ttls : Text → List ResolverResult → List ℕ
diverging_ttls key [] = []
diverging_ttls key (r ∷ rs) =
    (if is_behind key r then map (λ (a : Answer). a.ttl) r.answers else []) ++ diverging_ttls key rs

maximum_from : ℕ → List ℕ → ℕ
maximum_from m [] = m
maximum_from m (x ∷ xs) = maximum_from (if ltb m x then x else m) xs

-- The greatest number of a list, and 0 for the empty list.
unfoldable pub maximum : List ℕ → ℕ
unfolding maximum_from
maximum xs = maximum_from 0 xs

maximum_from-append :
    (m : ℕ) (xs ys : List ℕ) → maximum_from m (xs ++ ys) ≡ maximum_from (maximum_from m xs) ys
unfolding maximum_from
maximum_from-append m [] ys = refl
maximum_from-append m (x ∷ xs) ys = maximum_from-append (if ltb m x then x else m) xs ys

max_answer_ttl-maximum_from :
    (m : ℕ) (answers : List Answer)
    → max_answer_ttl m answers ≡ maximum_from m (map (λ (a : Answer). a.ttl) answers)
unfolding max_answer_ttl maximum_from
max_answer_ttl-maximum_from m [] = refl
max_answer_ttl-maximum_from m (a ∷ answers) =
    max_answer_ttl-maximum_from (if ltb m a.ttl then a.ttl else m) answers

max_ttl-maximum_from :
    (key : Text) (m : ℕ) (rs : List ResolverResult)
    → max_ttl key m rs ≡ maximum_from m (diverging_ttls key rs)
unfolding max_ttl diverging_ttls
max_ttl-maximum_from key m [] = unfold maximum_from in refl
max_ttl-maximum_from key m (r ∷ rs) = elim (Bool-cases (is_behind key r)) [
  | inl d ↦
      rw (is_diverging_lem key r, d)
        (max_ttl-maximum_from key (max_answer_ttl m r.answers) rs
          ∙ ap (λ n. maximum_from n (diverging_ttls key rs))
              (max_answer_ttl-maximum_from m r.answers)
          ∙ sym (
              maximum_from-append m (map (λ (a : Answer). a.ttl) r.answers)
                (diverging_ttls key rs)))
  | inr d ↦ rw (is_diverging_lem key r, d) (max_ttl-maximum_from key m rs)
]

maximum_from_bounds :
    (m : ℕ) (xs : List ℕ) → (m ≤ maximum_from m xs) × All (λ x. x ≤ maximum_from m xs) xs
unfolding maximum_from
maximum_from_bounds m [] = (omega arith, tt)
maximum_from_bounds m (x ∷ xs) =
    let (start, rest) = maximum_from_bounds (if ltb m x then x else m) xs in
    (ground arith, (ground arith, rest))

-- `maximum` is an upper bound.
pub maximum-All : (xs : List ℕ) → All (λ x. x ≤ maximum xs) xs
unfolding maximum
maximum-All xs = (maximum_from_bounds 0 xs).1

-- The loop of the code finds the greatest of those TTLs.
pub max_ttl-maximum :
    (key : Text) (rs : List ResolverResult) → max_ttl key 0 rs ≡ maximum (diverging_ttls key rs)
unfolding maximum
max_ttl-maximum key rs = max_ttl-maximum_from key 0 rs
