-- ===== src/Checker/Check/Results.antt =====
-- What a check returns, and what it leaves alone.
use dnsmon.Base.{
  suc, ◌⊎◌, inl, inr, ◌≤◌, ◌≡◌, refl, ap, List, [], ◌∷◌, Bool, true, false, Text, arith, length,
}
use dnsmon.Dns.{Resolver, ResolverResult}
use dnsmon.Dns as Dns
use dnsmon.Registry.Lookup.{IsConsistent}
use dnsmon.World.{Result, ok, err}
use dnsmon.Checker.Request.{
  CheckRequest, validate_request, validate_request_iff, IsAdmissible, max_resolvers,
}
use dnsmon.Checker.ResolverList.{resolver_list, build_resolver_list, disabled_resolver_set}
use dnsmon.Checker.ResolverList.Bounds.{resolver_list-Origin}
use dnsmon.Checker.Summary.{Iterate, build_summary}
use dnsmon.Checker.State.{Checker}
use dnsmon.Checker.Check.{
  Outcome, rejected, unsaved, checked, saved, fan_out, assemble, keep_check, run_check, run_listed,
  run_validated, check, query_with_cache,
}

abbrev pub Fits : Iterate → CheckRequest → Dns.Check → Type 0
Fits iterate req ck =
    IsAdmissible req
    × (ck.name ≡ req.name)
    × (ck.type ≡ req.type)
    × (length ck.results ≤ max_resolvers)
    × (ck.summary ≡ build_summary iterate ck.results)

-- An error says that the request or the choice of its resolvers was refused; a check fits the
-- request, and the error of the storage comes only with a check that was to be saved.
abbrev pub Describes : {W : Type 0} → Checker W → Iterate → CheckRequest → W → Outcome → Type 0
Describes c iterate req w (rejected e) =
    (validate_request req ≡ err e) ⊎ ((build_resolver_list c.registry c.storage req w).0 ≡ err e)
Describes c iterate req w (unsaved ck e) = (req.save ≡ true) × Fits iterate req ck
Describes c iterate req w (checked ck) = Fits iterate req ck

module _ {W : Type 0} (c : Checker W) where
  pub length-fan_out :
      (name qtype : Text) (no_cache : Bool) (rs : List Resolver) (w : W)
      → length (fan_out c name qtype no_cache rs w).0 ≡ length rs
  unfolding fan_out
  length-fan_out name qtype no_cache [] w = refl
  length-fan_out name qtype no_cache (r ∷ rs) w =
      ap suc (length-fan_out name qtype no_cache rs (query_with_cache c r name qtype no_cache w).1)

  Fits-saved :
      (iterate : Iterate) (req : CheckRequest) (w : W) (ck : Dns.Check) (done : Result (Unit {0}))
      → req.save ≡ true
      → Fits iterate req ck
      → Describes c iterate req w (saved ck done)
  Fits-saved iterate req w ck (ok u) s f = f
  Fits-saved iterate req w ck (err e) s f = (s, f)

  keep_check-Describes :
      (iterate : Iterate) (req : CheckRequest) (w : W) (ck : Dns.Check) (v : W) (save : Bool)
      → req.save ≡ save
      → Fits iterate req ck
      → Describes c iterate req w (keep_check c save ck v).0
  unfolding keep_check
  keep_check-Describes iterate req w ck v true s f =
      Fits-saved iterate req w ck (c.storage.save_check ck v).0 s f
  keep_check-Describes iterate req w ck v false s f = f

  run_check-Describes :
      (iterate : Iterate) (req : CheckRequest) (w : W) (rs : List Resolver) (v : W)
      → IsAdmissible req
      → length rs ≤ max_resolvers
      → Describes c iterate req w (run_check c iterate req rs v).0
  unfolding run_check assemble
  run_check-Describes iterate req w rs v a short =
      let (results, v₁) = fan_out c req.name req.type req.no_cache rs v in
      let (id_time, v₂) = c.machine.now v₁ in
      let (now, v₃) = c.machine.now v₂ in
      keep_check-Describes iterate req w (assemble c iterate req results id_time now) v₃ req.save
        refl
        (a, refl, refl, omega (arith, length-fan_out req.name req.type req.no_cache rs v), refl)

  run_listed-Describes :
      (iterate : Iterate) (req : CheckRequest) (w : W) (x : Result (List Resolver)) (v : W)
      → (build_resolver_list c.registry c.storage req w).0 ≡ x
      → IsAdmissible req
      → ((rs : List Resolver) → x ≡ ok rs → length rs ≤ max_resolvers)
      → Describes c iterate req w (run_listed c iterate req x v).0
  unfolding run_listed
  run_listed-Describes iterate req w (err e) v l a short = inr l
  run_listed-Describes iterate req w (ok rs) v l a short =
      run_check-Describes iterate req w rs v a (short rs refl)

  run_validated-Describes :
      (iterate : Iterate) (req : CheckRequest) (w : W) (x : Result (Unit {0}))
      → validate_request req ≡ x
      → IsConsistent c.registry
      → Describes c iterate req w (run_validated c iterate req x w).0
  unfolding run_validated build_resolver_list
  run_validated-Describes iterate req w (err e) v k = inl v
  run_validated-Describes iterate req w (ok u) v k =
      let (disabled, w₁) = disabled_resolver_set c.storage w in
      run_listed-Describes iterate req w (resolver_list c.registry disabled req) w₁ refl
        ((validate_request_iff req).0 v)
        (λ rs e. (resolver_list-Origin c.registry disabled req k rs e).1)

  -- From a consistent registry, `Check` refuses a request only with the error of its validation or of
  -- the choice of its resolvers. Any other outcome carries a check, and that answers an admissible
  -- request: it has the request's name and type, at most 200 results and the summary of its results.
  -- An error of the storage comes back only where the request asks to save the check.
  pub check-Describes :
      (iterate : Iterate) (req : CheckRequest) (w : W)
      → IsConsistent c.registry
      → Describes c iterate req w (check c iterate req w).0
  unfolding check
  check-Describes iterate req w k =
      run_validated-Describes iterate req w (validate_request req) refl k
