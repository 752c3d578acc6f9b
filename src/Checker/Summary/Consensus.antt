-- ===== src/Checker/Summary/Consensus.antt =====
-- The majority loop finds an entry of the greatest count, whatever the order of its range.
use mathlib.Core.List.{Perm}
use mathlib.Core.List.Perm
use native.Mathlib.Bridge.{le_prop}
use dnsmon.Base.{
  ℕ, ◌≤◌, ◌≡◌, refl, ◌⊎◌, inl, inr, lookup, List, [], ◌∷◌, Text, arith, All, Option, some, count_of,
  if◌then◌else◌, ltb, Bool, true, false, HasDistinctKeys, entries-lookup, All-perm,
}
use dnsmon.Checker.Summary.{Iterate, majority_from, majority}

-- Ranging over a map meets each entry once.
abbrev pub Ranges : Iterate → Type 0
Ranges iterate = (m : List (Text × ℕ)) → Perm (iterate m) m

majority_from_bounds :
    (key : Text) (n : ℕ) (es : List (Text × ℕ))
    → (n ≤ (majority_from key n es).1) × All (λ e. e.1 ≤ (majority_from key n es).1) es
unfolding majority_from
majority_from_bounds key n [] = (omega arith, tt)
majority_from_bounds key n (e ∷ es) =
    let (start, rest) =
      majority_from_bounds (if ltb n e.1 then e.0 else key) (if ltb n e.1 then e.1 else n) es in
    (ground arith, (ground arith, rest))

module _ (Q : Text → ℕ → Type 0) where
  pick :
      (b : Bool) (j k : Text) (m n : ℕ)
      → Q j m
      → Q k n
      → Q (if b then j else k) (if b then m else n)
  pick true j k m n p q = p
  pick false j k m n p q = q

  -- What holds at the start and of every entry holds of the result.
  majority_from_keeps :
      (key : Text) (n : ℕ) (es : List (Text × ℕ))
      → Q key n
      → All (λ e. Q e.0 e.1) es
      → Q (majority_from key n es).0 (majority_from key n es).1
  unfolding majority_from
  majority_from_keeps key n [] q h = q
  majority_from_keeps key n (e ∷ es) q h =
      majority_from_keeps (if ltb n e.1 then e.0 else key) (if ltb n e.1 then e.1 else n) es
        (pick (ltb n e.1) e.0 key e.1 n h.0 q) h.1

count_of-le : (k : Text) (n : ℕ) (m : List (Text × ℕ)) → All (λ e. e.1 ≤ n) m → count_of k m ≤ n
unfolding count_of lookup
count_of-le k n [] h = omega arith
count_of-le k n ((j, v) ∷ m) h = ground (arith, count_of-le k n m h.1, h.0)

count_of_entries :
    (m es : List (Text × ℕ))
    → All (λ e. lookup e.0 m ≡ some e.1) es
    → All (λ e. (count_of e.0 m ≡ e.1) ⊎ (e.1 ≡ 0)) es
unfolding count_of
count_of_entries m [] h = tt
count_of_entries m (e ∷ es) h = (inl (ground arith), count_of_entries m es h.1)

text_option_set : IsSet (Option ℕ)
text_option_set = hlevel

-- The key that the loop ends with has a greatest count, and the loop ends with that count.
pub majority-count_of :
    (iterate : Iterate) (m : List (Text × ℕ))
    → Ranges iterate
    → HasDistinctKeys m
    → let best = majority (iterate m) in
      (count_of best.0 m ≡ best.1) × ((k : Text) → count_of k m ≤ best.1)
unfolding majority
majority-count_of iterate m ranges distinct = (found, bound)
  where
    entries : All (λ (e : Text × ℕ). lookup e.0 m ≡ some e.1) (iterate m)
    entries =
        All-perm _ (λ e. text_option_set _ _) m (iterate m) (Perm.symm (ranges m))
          (entries-lookup m distinct)

    bound : (k : Text) → count_of k m ≤ (majority_from [] 0 (iterate m)).1
    bound k = count_of-le k _ m (
        All-perm _ (λ e. le_prop) (iterate m) m (ranges m)
          (majority_from_bounds [] 0 (iterate m)).1)

    found : count_of (majority_from [] 0 (iterate m)).0 m ≡ (majority_from [] 0 (iterate m)).1
    found =
        elim (majority_from_keeps (λ k n. (count_of k m ≡ n) ⊎ (n ≡ 0)) [] 0 (iterate m) (inr refl)
          (count_of_entries m (iterate m) entries)) [
            | inl e ↦ e
            | inr z ↦ omega (arith, bound (majority_from [] 0 (iterate m)).0)
          ]
