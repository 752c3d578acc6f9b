-- ===== src/Checker/ResolverList/Bounds.antt =====
-- What every resolver of a list satisfies.
use mathlib.Core.List.{Memᴰ}
use dnsmon.Base.{
  ◌≤◌, List, [], ◌∷◌, ◌++◌, Option, none, some, true, false, not, ◌&&◌, Text, member, length,
  length-take, All, All-append, All-take, keep-All, ◌≡◌, refl, ◌⊎◌, inl, inr, arith, Bool-cases,
  text_eq_iff, text_eq, if◌then◌else◌, or_else, lookup, bytes,
}
use dnsmon.Dns.{Resolver}
use dnsmon.Registry.{Registry, get, all}
use dnsmon.Registry.Lookup.{IsConsistent, find_last}
use dnsmon.World.{Result, ok, err, failed}
use dnsmon.Checker.Request.{CheckRequest, max_resolvers, is_private_or_local}
use dnsmon.Checker.ResolverList.{
  pick_ids, enabled, registered, admit, resolver_list, append_ok, cons_ok,
}

-- What a check may ask: a resolver of the registry that is not disabled, or a custom resolver of
-- the request; the latter has no private address unless the request allows it.
pub data Origin (reg : Registry) (disabled : List Text) (req : CheckRequest) (r : Resolver)
    : Type 0 where
  known : Memᴰ r (all reg) → member r.id disabled ≡ false → Origin reg disabled req r
  custom :
      Memᴰ r req.custom_resolvers
      → (req.allow_private ≡ true) ⊎ (is_private_or_local r.ip ≡ false)
      → Origin reg disabled req r

-- A result, if it is one, has an id and stands in a list.
abbrev Found : Text → List Resolver → Option Resolver → Type 0
Found id rs none = Unit
Found id rs (some r) = Memᴰ r rs × (r.id ≡ id)

Found-tail :
    (id : Text) (q : Resolver) (rs : List Resolver) (o : Option Resolver)
    → Found id rs o
    → Found id (q ∷ rs) o
Found-tail id q rs none h = tt
Found-tail id q rs (some r) h = (Memᴰ.tail h.0, h.1)

Found-or_else :
    (id : Text) (rs : List Resolver) (o p : Option Resolver)
    → Found id rs o
    → Found id rs p
    → Found id rs (or_else o p)
Found-or_else id rs none p h k = k
Found-or_else id rs (some r) p h k = h

find_last-Found : (id : Text) (rs : List Resolver) → Found id rs (find_last id rs)
unfolding find_last
find_last-Found id [] = tt
find_last-Found id (q ∷ rs) =
    Found-or_else id (q ∷ rs) (find_last id rs) (if text_eq q.id id then some q else none)
      (Found-tail id q rs (find_last id rs) (find_last-Found id rs))
      (elim (Bool-cases (text_eq q.id id)) [
        | inl here ↦ rw here (Memᴰ.head refl, (text_eq_iff q.id id).0 here)
        | inr other ↦ rw other tt
      ])

-- All elements of a result, if it is one.
abbrev AllOk : (Resolver → Type 0) → Result (List Resolver) → Type 0
AllOk P (ok rs) = All P rs
AllOk P (err e) = Unit

AllOk-cons_ok :
    (P : Resolver → Type 0) (r : Resolver) (x : Result (List Resolver))
    → P r
    → AllOk P x
    → AllOk P (cons_ok r x)
AllOk-cons_ok P r (ok rs) p h = (p, h)
AllOk-cons_ok P r (err e) p h = tt

AllOk-append_ok :
    (P : Resolver → Type 0) (x y : Result (List Resolver))
    → AllOk P x
    → AllOk P y
    → AllOk P (append_ok x y)
AllOk-append_ok P (ok rs) (ok cs) h k = All-take P max_resolvers (rs ++ cs) (All-append P rs cs h k)
AllOk-append_ok P (ok rs) (err e) h k = tt
AllOk-append_ok P (err e) y h k = tt

-- The length of a result, if it is one.
abbrev Short : Result (List Resolver) → Type 0
Short (ok rs) = length rs ≤ max_resolvers
Short (err e) = Unit

append_ok-Short : (x y : Result (List Resolver)) → Short (append_ok x y)
append_ok-Short (ok rs) (ok cs) = omega (arith, length-take max_resolvers (rs ++ cs))
append_ok-Short (ok rs) (err e) = tt
append_ok-Short (err e) y = tt

All-weaken :
    (q : Resolver) (l rs : List Resolver) → All (λ r. Memᴰ r l) rs → All (λ r. Memᴰ r (q ∷ l)) rs
All-weaken q l [] h = tt
All-weaken q l (r ∷ rs) h = (Memᴰ.tail h.0, All-weaken q l rs h.1)

All-Memᴰ : (l : List Resolver) → All (λ r. Memᴰ r l) l
All-Memᴰ [] = tt
All-Memᴰ (r ∷ l) = (Memᴰ.head refl, All-weaken r l l (All-Memᴰ l))

module _ (reg : Registry) (disabled : List Text) (req : CheckRequest) where
  pick_ids-Origin :
      IsConsistent reg
      → (ids : List Text) → AllOk (Origin reg disabled req) (pick_ids reg disabled ids)
  unfolding pick_ids get all
  pick_ids-Origin c [] = tt
  pick_ids-Origin c (id ∷ ids) = elim (Bool-cases (member id disabled)) [
    | inl off ↦ rw off (pick_ids-Origin c ids)
    | inr on ↦ rw on (
        one (lookup id reg.by_id) (rw (c.indexed id) (find_last-Found id reg.resolvers)) on
          (pick_ids reg disabled ids) (pick_ids-Origin c ids))
  ]
    where
      one :
          (o : Option Resolver)
          → Found id reg.resolvers o
          → member id disabled ≡ false
          → (x : Result (List Resolver)) → AllOk (Origin reg disabled req) x
          → AllOk (Origin reg disabled req) (elim o [
            | none ↦ err (failed (bytes "resolver not found: " ++ id))
            | some r ↦ cons_ok r x
          ])
      one none found on x h = tt
      one (some r) found on x h =
          AllOk-cons_ok (Origin reg disabled req) r x (Origin.known found.0 (rw found.1 on)) h

  enabled-Origin :
      (rs : List Resolver)
      → All (λ r. Memᴰ r (all reg)) rs
      → All (Origin reg disabled req) (enabled disabled rs)
  unfolding enabled
  enabled-Origin rs h =
      keep-All (λ r. Memᴰ r (all reg)) (Origin reg disabled req) _
        (λ r there on. Origin.known there (ground arith)) rs h

  registered-Origin :
      IsConsistent reg
      → (ids : List Text) → AllOk (Origin reg disabled req) (registered reg disabled ids)
  unfolding registered
  registered-Origin c [] = enabled-Origin (all reg) (All-Memᴰ (all reg))
  registered-Origin c (id ∷ ids) = pick_ids-Origin c (id ∷ ids)

  admit-Origin :
      (cs : List Resolver)
      → All (λ r. Memᴰ r req.custom_resolvers) cs
      → AllOk (Origin reg disabled req) (admit req.allow_private cs)
  unfolding admit
  admit-Origin [] h = tt
  admit-Origin (r ∷ cs) h = elim (Bool-cases (not req.allow_private && is_private_or_local r.ip)) [
    | inl refused ↦ rw refused tt
    | inr admitted ↦ rw admitted (
        AllOk-cons_ok (Origin reg disabled req) r (admit req.allow_private cs)
          (Origin.custom h.0 (ground arith)) (admit-Origin cs h.1))
  ]

  -- From a consistent registry, a check is given at most 200 resolvers. Each is a resolver of the
  -- registry whose id is not disabled, or one of the request's custom resolvers, and the address of
  -- the latter is not private or local unless the request allows that.
  pub resolver_list-Origin :
      IsConsistent reg
      → (rs : List Resolver) → resolver_list reg disabled req ≡ ok rs
      → All (Origin reg disabled req) rs × (length rs ≤ max_resolvers)
  unfolding resolver_list
  resolver_list-Origin c rs e = (
    rw e at (
        AllOk-append_ok (Origin reg disabled req) (registered reg disabled req.resolver_ids)
          (admit req.allow_private req.custom_resolvers) (registered-Origin c req.resolver_ids)
          (admit-Origin req.custom_resolvers (All-Memᴰ req.custom_resolvers))),
    rw e at (
        append_ok-Short (registered reg disabled req.resolver_ids)
          (admit req.allow_private req.custom_resolvers)),
  )
