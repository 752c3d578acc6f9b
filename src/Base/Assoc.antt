-- ===== src/Base/Assoc.antt =====
-- A Go map with string keys, as the list of its entries; a write keeps the place of its key.
use Prim.Native.Nat.{ℕ, ◌+◌, ◌≤◌}
use mathlib.Core.Path.{◌≡◌, refl}
use mathlib.Core.Bool.{Bool, false, ◌||◌}
use mathlib.Core.Logic.{inl, inr}
use mathlib.Core.List.{List, [], ◌∷◌}
use mathlib.Core.Option.{Option, none, some}
use native.Mathlib.Omega.{arith}
use dnsmon.Base.Tests.{if◌then◌else◌, Bool-cases}
use dnsmon.Base.Lists.{All}
use dnsmon.Base.Strings.{Text, text_eq, text_eq_iff, text_eq_refl}

-- `_, ok := set[k]` for a `map[string]struct{}`
unfoldable pub member : Text → List Text → Bool
member k [] = false
member k (j ∷ s) = text_eq j k || member k s

module _ {ℓ} {V : Type ℓ} where
  -- `v, ok := m[k]`
  unfoldable pub lookup : Text → List (Text × V) → Option V
  lookup k [] = none
  lookup k (e ∷ m) = if text_eq e.0 k then some e.1 else lookup k m

  -- `m[k] = v`
  unfoldable pub insert : Text → V → List (Text × V) → List (Text × V)
  insert k v [] = (k, v) ∷ []
  insert k v (e ∷ m) = if text_eq e.0 k then (k, v) ∷ m else e ∷ insert k v m

  pub lookup-insert :
      (k j : Text) (v : V) (m : List (Text × V))
      → lookup j (insert k v m) ≡ (if text_eq k j then some v else lookup j m)
  unfolding lookup insert
  lookup-insert k j v [] = refl
  lookup-insert k j v (e ∷ m) =
      let rest = lookup-insert k j v m in
      ground (arith, text_eq_iff e.0 k, text_eq_iff e.0 j, text_eq_iff k j, rest)

-- `m[k]`, which is 0 where the key is missing
unfoldable pub count_of : Text → List (Text × ℕ) → ℕ
count_of k m = elim (lookup k m) [ none ↦ 0 | some n ↦ n ]

-- `m[k]++`
unfoldable pub bump : Text → List (Text × ℕ) → List (Text × ℕ)
unfolding count_of
bump k m = insert k (count_of k m + 1) m

pub count_of-bump :
    (k j : Text) (m : List (Text × ℕ))
    → count_of j (bump k m) ≡ (if text_eq k j then count_of j m + 1 else count_of j m)
unfolding bump
count_of-bump k j m = ground (arith, lookup-insert k j (count_of k m + 1) m, text_eq_iff k j)

-- The sum of all values of a map.
unfoldable pub total_count : List (Text × ℕ) → ℕ
total_count [] = 0
total_count (e ∷ m) = e.1 + total_count m

-- No key has two entries.
abbrev pub HasDistinctKeys {ℓ} : {V : Type ℓ} → List (Text × V) → Type ℓ
HasDistinctKeys [] = Unit
HasDistinctKeys (e ∷ m) = (lookup e.0 m ≡ none) × HasDistinctKeys m

total_count-insert :
    (k : Text) (v : ℕ) (m : List (Text × ℕ))
    → total_count (insert k v m) + count_of k m ≡ v + total_count m
unfolding insert total_count count_of lookup
total_count-insert k v [] = omega arith
total_count-insert k v ((j, w) ∷ m) = ground (arith, total_count-insert k v m, text_eq_iff j k)

pub total_count-bump : (k : Text) (m : List (Text × ℕ)) → total_count (bump k m) ≡ total_count m + 1
unfolding bump
total_count-bump k m = omega (arith, total_count-insert k (count_of k m + 1) m)

module _ {ℓ} {V : Type ℓ} where
  pub insert-HasDistinctKeys :
      (k : Text) (v : V) (m : List (Text × V)) → HasDistinctKeys m → HasDistinctKeys (insert k v m)
  unfolding insert lookup
  insert-HasDistinctKeys k v [] h = (refl, tt)
  insert-HasDistinctKeys k v ((j, w) ∷ m) h = elim (Bool-cases (text_eq j k)) [
    | inl e ↦ rw e (rw ((text_eq_iff j k).0 e) at h.0, h.1)
    | inr e ↦ rw e (
      ground (arith, lookup-insert k j v m, text_eq_iff k j, text_eq_iff j k, h.0),
      insert-HasDistinctKeys k v m h.1,
    )
  ]

  -- Each entry of a map without double keys is what the lookup of its key finds.
  weaken_entries :
      (j : Text) (w : V) (m es : List (Text × V))
      → lookup j m ≡ none
      → All (λ e. lookup e.0 m ≡ some e.1) es
      → All (λ e. lookup e.0 ((j, w) ∷ m) ≡ some e.1) es
  unfolding lookup
  weaken_entries j w m [] h all = tt
  weaken_entries j w m ((i, v) ∷ es) h all =
      (ground (arith, text_eq_iff j i, h, all.0), weaken_entries j w m es h all.1)

  pub entries-lookup :
      (m : List (Text × V)) → HasDistinctKeys m → All (λ e. lookup e.0 m ≡ some e.1) m
  entries-lookup [] h = tt
  entries-lookup ((j, w) ∷ m) h =
      (unfold lookup in rw (text_eq_refl j) refl, weaken_entries j w m m h.0 (entries-lookup m h.1))

pub bump-HasDistinctKeys :
    (k : Text) (m : List (Text × ℕ)) → HasDistinctKeys m → HasDistinctKeys (bump k m)
unfolding bump
bump-HasDistinctKeys k m h = insert-HasDistinctKeys k (count_of k m + 1) m h

pub count_of-le-total_count : (k : Text) (m : List (Text × ℕ)) → count_of k m ≤ total_count m
unfolding count_of lookup total_count
count_of-le-total_count k [] = omega arith
count_of-le-total_count k ((j, v) ∷ m) = ground (arith, count_of-le-total_count k m)
