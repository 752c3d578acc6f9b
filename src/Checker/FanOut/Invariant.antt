-- ===== src/Checker/FanOut/Invariant.antt =====
-- What holds in every reachable pool.
use mathlib.Core.Path.{subst}
use mathlib.Core.Option.{some-injective}
use dnsmon.Base.{
  ℕ, zero, suc, ◌+◌, ◌≤◌, ◌≡◌, refl, sym, ◌∙◌, List, [], ◌∷◌, map, Option, none, some, get_elem?,
  set, All, arith,
}
use dnsmon.Dns.{Resolver, ResolverResult}
use dnsmon.Checker.FanOut.{
  Phase, waiting, running, stored, finished, Pool, start, Step, acquire, store, release, Reach,
  here, next, IsDone,
}

-- The sum of a weight over the phases.
unfoldable pub weigh : (Phase → ℕ) → List Phase → ℕ
weigh w [] = 0
weigh w (p ∷ ps) = w p + weigh w ps

pub weigh-set :
    (w : Phase → ℕ) (ps : List Phase) (i : ℕ) (p q : Phase)
    → get_elem? ps i ≡ some p
    → weigh w (set ps i q) + w p ≡ weigh w ps + w q
unfolding weigh
weigh-set w [] i p q e = ground arith
weigh-set w (x ∷ ps) zero p q e = ground arith
weigh-set w (x ∷ ps) (suc i) p q e = omega (arith, weigh-set w ps i p q e)

-- 1 for a goroutine that holds a token.
unfoldable pub holds : Phase → ℕ
holds running = 1
holds stored = 1
holds _ = 0

-- The steps that a goroutine has left.
unfoldable pub left : Phase → ℕ
left waiting = 3
left running = 2
left stored = 1
left finished = 0

module _ (Answers : Resolver → ResolverResult → Type 0) where
  abbrev pub Slot : Resolver → Phase → Option ResolverResult → Type 0
  Slot r waiting o = o ≡ none
  Slot r running o = o ≡ none
  Slot r _ o = (x : ResolverResult) × (o ≡ some x) × Answers r x

  -- Each slot fits its resolver and its goroutine's phase.
  abbrev pub Agree : List Resolver → List Phase → List (Option ResolverResult) → Type 0
  Agree [] [] [] = Unit
  Agree (r ∷ rs) (p ∷ ps) (o ∷ os) = Slot r p o × Agree rs ps os
  Agree _ _ _ = ⊥

  -- Every resolver has an answer of its own in its slot.
  abbrev pub IsFilled : List Resolver → List (Option ResolverResult) → Type 0
  IsFilled [] [] = Unit
  IsFilled (r ∷ rs) (o ∷ os) = ((x : ResolverResult) × (o ≡ some x) × Answers r x) × IsFilled rs os
  IsFilled _ _ = ⊥

  Agree-set :
      (p q : Phase)
      → ((r : Resolver) (o : Option ResolverResult) → Slot r p o → Slot r q o)
      → (rs : List Resolver) (ps : List Phase) (os : List (Option ResolverResult)) (i : ℕ)
      → get_elem? ps i ≡ some p
      → Agree rs ps os
      → Agree rs (set ps i q) os
  Agree-set p q go (r ∷ rs) (x ∷ ps) (o ∷ os) zero e h =
      (go r o (subst (λ y. Slot r y o) (some-injective _ _ e) h.0), h.1)
  Agree-set p q go (r ∷ rs) (x ∷ ps) (o ∷ os) (suc i) e h = (h.0, Agree-set p q go rs ps os i e h.1)
  Agree-set p q go [] [] [] i e h = tt
  Agree-set p q go [] [] (o ∷ os) i e h = h
  Agree-set p q go [] (x ∷ ps) os i e h = absurd h
  Agree-set p q go (r ∷ rs) [] os i e h = h
  Agree-set p q go (r ∷ rs) (x ∷ ps) [] i e h = absurd h

  Agree-store :
      (r : Resolver) (x : ResolverResult)
      → Answers r x
      → (rs : List Resolver) (ps : List Phase) (os : List (Option ResolverResult)) (i : ℕ)
      → get_elem? rs i ≡ some r
      → Agree rs ps os
      → Agree rs (set ps i stored) (set os i (some x))
  Agree-store r x a (q ∷ rs) (y ∷ ps) (o ∷ os) zero e h =
      ((x, refl, subst (λ z. Answers z x) (sym (some-injective _ _ e)) a), h.1)
  Agree-store r x a (q ∷ rs) (y ∷ ps) (o ∷ os) (suc i) e h =
      (h.0, Agree-store r x a rs ps os i e h.1)
  Agree-store r x a [] [] [] i e h = tt
  Agree-store r x a [] [] (o ∷ os) i e h = absurd h
  Agree-store r x a [] (y ∷ ps) os i e h = absurd h
  Agree-store r x a (q ∷ rs) [] os i e h = absurd h
  Agree-store r x a (q ∷ rs) (y ∷ ps) [] i e h = absurd h

  Agree-start : (rs : List Resolver) → Agree rs (map (λ r. waiting) rs) (map (λ r. none) rs)
  Agree-start [] = tt
  Agree-start (r ∷ rs) = (refl, Agree-start rs)

  Agree-IsFilled :
      (rs : List Resolver) (ps : List Phase) (os : List (Option ResolverResult))
      → All (λ p. p ≡ finished) ps
      → Agree rs ps os
      → IsFilled rs os
  Agree-IsFilled [] [] [] d h = tt
  Agree-IsFilled [] [] (o ∷ os) d h = h
  Agree-IsFilled [] (p ∷ ps) os d h = absurd h
  Agree-IsFilled (r ∷ rs) [] os d h = absurd h
  Agree-IsFilled (r ∷ rs) (p ∷ ps) [] d h = absurd h
  Agree-IsFilled (r ∷ rs) (p ∷ ps) (o ∷ os) d h =
      (subst (λ y. Slot r y o) d.0 h.0, Agree-IsFilled rs ps os d.1 h.1)

none_hold : (rs : List Resolver) → 0 ≡ weigh holds (map (λ r. waiting) rs)
unfolding weigh holds
none_hold [] = refl
none_hold (r ∷ rs) = omega (arith, none_hold rs)

pub none_left : (ps : List Phase) → All (λ p. p ≡ finished) ps → weigh holds ps ≡ 0
unfolding weigh holds
none_left [] d = refl
none_left (p ∷ ps) d = ground (arith, none_left ps d.1)

module _ (Answers : Resolver → ResolverResult → Type 0) (rs : List Resolver) (cap : ℕ) where
  -- The tokens that are taken are those of the goroutines that query, and never more than there are.
  pub record IsSound (p : Pool) : Type 0 where
    pub tokens : p.used ≡ weigh holds p.phases
    pub bounded : p.used ≤ cap
    pub agree : Agree Answers rs p.phases p.slots

  pub start-IsSound : IsSound (start rs)
  unfolding start
  start-IsSound = record {
    tokens = none_hold rs;
    bounded = omega arith;
    agree = Agree-start Answers rs;
  }

  Step-IsSound : {p q : Pool} → Step Answers rs cap p q → IsSound p → IsSound q
  unfolding holds
  Step-IsSound {p} (acquire i e room) s = record {
    tokens = omega (arith, weigh-set holds p.phases i waiting running e, s.tokens);
    bounded = omega arith;
    agree = Agree-set Answers waiting running (λ r o h. h) rs p.phases p.slots i e s.agree;
  }
  Step-IsSound {p} (store i r x e f a) s = record {
    tokens = omega (arith, weigh-set holds p.phases i running stored e, s.tokens);
    bounded = s.bounded;
    agree = Agree-store Answers r x a rs p.phases p.slots i f s.agree;
  }
  Step-IsSound {p} (release i e) s = record {
    tokens = omega (arith, weigh-set holds p.phases i stored finished e, s.tokens);
    bounded = omega (arith, s.bounded);
    agree = Agree-set Answers stored finished (λ r o h. h) rs p.phases p.slots i e s.agree;
  }

  pub Reach-IsSound :
      {p : Pool} {n : ℕ} {q : Pool} → Reach Answers rs cap p n q → IsSound p → IsSound q
  Reach-IsSound here s = s
  Reach-IsSound (next r st) s = Step-IsSound st (Reach-IsSound r s)

  -- In every order of the goroutines' steps, at most `cap` of them query at a time.
  pub fan_out_bounded :
      (n : ℕ) (p : Pool) → Reach Answers rs cap (start rs) n p → weigh holds p.phases ≤ cap
  fan_out_bounded n p r =
      let s = Reach-IsSound r start-IsSound in omega (arith, s.tokens, s.bounded)

  -- In every order of the goroutines' steps, once all of them have finished each slot of the list has
  -- an answer for the resolver at its place, and all tokens are back.
  pub fan_out-IsFilled :
      (n : ℕ) (p : Pool)
      → Reach Answers rs cap (start rs) n p
      → IsDone p
      → IsFilled Answers rs p.slots × (p.used ≡ 0)
  fan_out-IsFilled n p r done =
      let s = Reach-IsSound r start-IsSound in
      (Agree-IsFilled Answers rs p.phases p.slots done s.agree, s.tokens ∙ none_left p.phases done)
