-- ===== src/Checker/FanOut/Progress.antt =====
-- The goroutines neither block one another for good nor run for ever.
use dnsmon.Base.{
  ℕ, zero, suc, ◌+◌, ◌*◌, ◌<◌, ◌≤◌, ◌≡◌, refl, ◌⊎◌, inl, inr, List, [], ◌∷◌, map, Option, some,
  get_elem?, All, arith, length, ◌↔◌, ℤ, pos, negsuc,
}
use dnsmon.Dns.{Resolver, ResolverResult}
use dnsmon.Checker.FanOut.{
  Phase, waiting, running, stored, finished, Pool, capacity, start, Step, acquire, store, release,
  Reach, here, next, IsDone,
}
use dnsmon.Checker.FanOut.Invariant.{
  weigh, weigh-set, holds, left, none_left, Agree, Reach-IsSound, start-IsSound, IsFilled,
  fan_out-IsFilled,
}

-- All phases are the last one, or some goroutine holds a token, or some waits and none holds one.
data Status (ps : List Phase) : Type 0 where
  done : All (λ p. p ≡ finished) ps → Status ps
  queries : (i : ℕ) → get_elem? ps i ≡ some running → Status ps
  answered : (i : ℕ) → get_elem? ps i ≡ some stored → Status ps
  waits : (i : ℕ) → get_elem? ps i ≡ some waiting → weigh holds ps ≡ 0 → Status ps

status_cons : (p : Phase) (ps : List Phase) → Status ps → Status (p ∷ ps)
unfolding weigh holds
status_cons running ps s = queries 0 refl
status_cons stored ps s = answered 0 refl
status_cons p ps (queries i e) = queries (suc i) e
status_cons p ps (answered i e) = answered (suc i) e
status_cons finished ps (done d) = done (refl, d)
status_cons finished ps (waits i e z) = waits (suc i) e (omega (arith, z))
status_cons waiting ps (waits i e z) = waits (suc i) e (omega (arith, z))
status_cons waiting ps (done d) = waits 0 refl (omega (arith, none_left ps d))

status : (ps : List Phase) → Status ps
status [] = done tt
status (p ∷ ps) = status_cons p ps (status ps)

left_start : (rs : List Resolver) → weigh left (map (λ r. waiting) rs) ≡ 3 * length rs
unfolding weigh left
left_start [] = refl
left_start (r ∷ rs) = omega (arith, left_start rs)

module _ (Answers : Resolver → ResolverResult → Type 0) (rs : List Resolver) (cap : ℕ) where
  -- A resolver stands where a phase stands.
  resolver_at :
      (qs : List Resolver) (ps : List Phase) (os : List (Option ResolverResult)) (i : ℕ)
      (ph : Phase)
      → Agree Answers qs ps os
      → get_elem? ps i ≡ some ph
      → (r : Resolver) × (get_elem? qs i ≡ some r)
  resolver_at (q ∷ qs) (x ∷ ps) (o ∷ os) zero ph h e = (q, refl)
  resolver_at (q ∷ qs) (x ∷ ps) (o ∷ os) (suc i) ph h e = resolver_at qs ps os i ph h.1 e
  resolver_at [] [] [] i ph h e = cc
  resolver_at [] [] (o ∷ os) i ph h e = absurd h
  resolver_at [] (x ∷ ps) os i ph h e = absurd h
  resolver_at (q ∷ qs) [] os i ph h e = absurd h
  resolver_at (q ∷ qs) (x ∷ ps) [] i ph h e = absurd h

  go_on :
      ((r : Resolver) → (x : ResolverResult) × Answers r x)
      → 0 < cap
      → (n : ℕ) (p : Pool) → Reach Answers rs cap (start rs) n p
      → IsDone p ⊎ ((q : Pool) × Step Answers rs cap p q)
  go_on returns room n p reach =
      let s = Reach-IsSound Answers rs cap reach (start-IsSound Answers rs cap) in
      elim (status p.phases) [
        | done d ↦ inl d
        | queries i e ↦
            let (r, at) = resolver_at rs p.phases p.slots i running s.agree e in
            inr (_, store i r (returns r).0 e at (returns r).1)
        | answered i e ↦ inr (_, release i e)
        | waits i e z ↦ inr (_, acquire i e (omega (arith, s.tokens)))
      ]

  Step-left : {p q : Pool} → Step Answers rs cap p q → weigh left q.phases + 1 ≡ weigh left p.phases
  unfolding left
  Step-left {p} (acquire i e room) = omega (arith, weigh-set left p.phases i waiting running e)
  Step-left {p} (store i r x e f a) = omega (arith, weigh-set left p.phases i running stored e)
  Step-left {p} (release i e) = omega (arith, weigh-set left p.phases i stored finished e)

  Reach-left :
      {p : Pool} {n : ℕ} {q : Pool}
      → Reach Answers rs cap p n q
      → n + weigh left q.phases ≡ weigh left p.phases
  Reach-left here = omega arith
  Reach-left (next r st) = omega (arith, Reach-left r, Step-left st)

  -- A step in front of a run.
  before :
      {p q r : Pool} {m : ℕ}
      → Step Answers rs cap p q
      → Reach Answers rs cap q m r
      → Reach Answers rs cap p (suc m) r
  before st here = next here st
  before st (next run last) = next (before st run) last

  left-done : (ps : List Phase) → All (λ p. p ≡ finished) ps → weigh left ps ≡ 0
  unfolding weigh left
  left-done [] d = refl
  left-done (p ∷ ps) d = ground (arith, left-done ps d.1)

  left_bound :
      (n : ℕ) (p : Pool)
      → Reach Answers rs cap (start rs) n p
      → n + weigh left p.phases ≡ 3 * length rs
  unfolding start
  left_bound n p reach = omega (arith, Reach-left reach, left_start rs)

  -- A run goes on to an end at which the results are complete and no token is out.
  abbrev pub Finishes : Pool → Type 0
  Finishes p =
      (m : ℕ) × (q : Pool) × Reach Answers rs cap p m q
      × IsDone q
      × IsFilled Answers rs q.slots
      × (q.used ≡ 0)

  finish :
      ((r : Resolver) → (x : ResolverResult) × Answers r x)
      → 0 < cap
      → (k n : ℕ) (p : Pool) → Reach Answers rs cap (start rs) n p
      → n + k ≡ 3 * length rs
      → Finishes p
  finish returns room zero n p reach total = elim (go_on returns room n p reach) [
    | inl ended ↦
        let (filled, free) = fan_out-IsFilled Answers rs cap n p reach ended in
        (0, p, here, ended, filled, free)
    | inr (q, st) ↦ absurd (omega (arith, left_bound n p reach, Step-left st))
  ]
  finish returns room (suc k) n p reach total = elim (go_on returns room n p reach) [
    | inl ended ↦
        let (filled, free) = fan_out-IsFilled Answers rs cap n p reach ended in
        (0, p, here, ended, filled, free)
    | inr (q, st) ↦
        let (m, r, run, ended, filled, free) =
          finish returns room k (suc n) q (next reach st) (omega arith) in
        (suc m, r, before st run, ended, filled, free)
  ]

  done_of_total :
      ((r : Resolver) → (x : ResolverResult) × Answers r x)
      → 0 < cap
      → (n : ℕ) (p : Pool) → Reach Answers rs cap (start rs) n p
      → n ≡ 3 * length rs
      → IsDone p
  done_of_total returns room n p reach total = elim (go_on returns room n p reach) [
    | inl ended ↦ ended
    | inr (q, st) ↦ absurd (omega (arith, left_bound n p reach, Step-left st))
  ]

-- The semaphore has room, whatever is configured.
capacity_pos : (configured : ℤ) → 0 < capacity configured
unfolding capacity
capacity_pos (pos configured) = ground arith
capacity_pos (negsuc below) = omega arith

-- With any configured concurrency, zero and negative ones included, in every order of the goroutines' steps: if each query returns,
-- some goroutine can take a step until all have finished.
pub fan_out_progress :
    (Answers : Resolver → ResolverResult → Type 0) (rs : List Resolver) (configured : ℤ)
    → ((r : Resolver) → (x : ResolverResult) × Answers r x)
    → (n : ℕ) (p : Pool) → Reach Answers rs (capacity configured) (start rs) n p
    → IsDone p ⊎ ((q : Pool) × Step Answers rs (capacity configured) p q)
fan_out_progress Answers rs configured returns =
    go_on Answers rs (capacity configured) returns (capacity_pos configured)

-- With any configured concurrency, if each query returns: in every order of the goroutines' steps, a
-- run never has more than three steps for each resolver, has that many exactly where all goroutines
-- have finished, and can go on from wherever it is until they have, with an answer for each resolver
-- at its place and all tokens back.
pub fan_out_terminates :
    (Answers : Resolver → ResolverResult → Type 0) (rs : List Resolver) (configured : ℤ)
    → ((r : Resolver) → (x : ResolverResult) × Answers r x)
    → (n : ℕ) (p : Pool) → Reach Answers rs (capacity configured) (start rs) n p
    → (n ≤ 3 * length rs)
      × ((n ≡ 3 * length rs) ↔ IsDone p)
      × Finishes Answers rs (capacity configured) p
fan_out_terminates Answers rs configured returns n p reach =
    let cap = capacity configured in
    let room = capacity_pos configured in
    let bound = left_bound Answers rs cap n p reach in
    (
      omega (arith, bound),
      (
        done_of_total Answers rs cap returns room n p reach,
        λ done. omega (arith, bound, left-done Answers rs cap p.phases done),
      ),
      finish Answers rs cap returns room (weigh left p.phases) n p reach bound,
    )
