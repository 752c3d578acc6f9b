-- ===== src/Checker/FanOut.antt =====
-- internal/checker/checker.go, `fanOut`: one goroutine for each resolver, a semaphore that lets
-- `concurrency` of them query at once, and a slot of the result list for each. A step is what one
-- goroutine does between two points where another may run.
pub mod Invariant
pub mod Progress
use dnsmon.Base.{
  ℕ, suc, ◌+◌, ◌-◌, ◌<◌, ◌≡◌, List, [], ◌∷◌, map, Option, none, some, get_elem?, set, ◌==◌,
  if◌then◌else◌, All, ℤ, pos, negsuc,
}
use dnsmon.Dns.{Resolver, ResolverResult}

-- In front of the semaphore, querying, with its result stored, and with the semaphore released.
pub data Phase : Type 0 where
  waiting running stored finished : Phase

-- `slots` is `results`, where `none` is the zero value; `used` is the number of tokens in `sem`.
pub record Pool : Type 0 where
  pub phases : List Phase
  pub slots : List (Option ResolverResult)
  pub used : ℕ

-- The capacity of `sem`: the configured number, or 4 if that is not positive.
unfoldable pub capacity : ℤ → ℕ
capacity (pos configured) = if configured == 0 then 4 else configured
capacity (negsuc below) = 4

unfoldable pub start : List Resolver → Pool
start rs = record {
  phases = map (λ (r : Resolver). Phase.waiting) rs;
  slots = map (λ (r : Resolver). none) rs;
  used = 0;
}

-- What `queryWithCache` may answer for a resolver is the relation `Answers`.
module _ (Answers : Resolver → ResolverResult → Type 0) (rs : List Resolver) (cap : ℕ) where
  pub data Step (p : Pool) : Pool → Type 0 where
    acquire :
        (i : ℕ)
        → get_elem? p.phases i ≡ some Phase.waiting
        → p.used < cap
        → Step p (record p { phases = set p.phases i Phase.running; used = p.used + 1 })
    store :
        (i : ℕ) (r : Resolver) (x : ResolverResult)
        → get_elem? p.phases i ≡ some Phase.running
        → get_elem? rs i ≡ some r
        → Answers r x
        → Step p (record p { phases = set p.phases i Phase.stored; slots = set p.slots i (some x) })
    release :
        (i : ℕ)
        → get_elem? p.phases i ≡ some Phase.stored
        → Step p (record p { phases = set p.phases i Phase.finished; used = p.used - 1 })

  -- What a run may lead to; `n` counts its steps.
  pub data Reach (p : Pool) : ℕ → Pool → Type 0 where
    here : Reach p 0 p
    next : {n : ℕ} {q q' : Pool} → Reach p n q → Step q q' → Reach p (suc n) q'

-- `wg.Wait()` returns.
abbrev pub IsDone : Pool → Type 0
IsDone p = All (λ ph. ph ≡ Phase.finished) p.phases
