-- ===== src/Checker/Trace/Hops.antt =====
-- What the walk of a trace looks like, whatever the servers and the system's resolver answer.
use dnsmon.Base.{
  ℕ, zero, suc, ◌≤◌, ◌≡◌, refl, ap, ◌∙◌, List, [], ◌∷◌, Option, none, some, Bool, true, false, ◌||◌,
  Text, is_empty, if◌then◌else◌, length, All, arith, trim_dot, map, take,
}
use dnsmon.Dns.{TraceStep, TraceResult}
use dnsmon.Dns.RecordTypes.{is_supported}
use dnsmon.Dns.Records.{RrData, Rr, Msg}
use dnsmon.Dns.Client.{Exchanged, response, failure, Network, fqdn}
use dnsmon.World.{ok, Action, ◌>>=◌, pure, Machine}
use dnsmon.Checker.Trace.{
  NameService, root_servers, max_trace_steps, key_of, Glue, glue_all, Servers, fresh_glue,
  failed_step, answered_step, Hop, next_by, next_of, next_all, hop_by, hop_of, trace_step, go_on,
  walk, trace,
}
use dnsmon.Checker.Request.{is_private_or_local}
use dnsmon.Checker.Trace.Targets.{
  IsOpen, IsOpenGlue, IsOpenSome, glue_all-IsOpen, fresh_glue-IsOpen, push-IsOpen,
  after_lookup-IsOpen, root_servers-IsOpen,
}

-- The shape of a walk: each server that is asked has an address in the open, and each step but the
-- last has an answer that is not authoritative.
abbrev pub IsWalk : List TraceStep → Type 0
IsWalk [] = Unit
IsWalk (s ∷ []) = IsOpen s.ip
IsWalk (s ∷ t ∷ rest) = IsOpen s.ip × (s.authoritative ≡ false) × (s.error ≡ []) × IsWalk (t ∷ rest)

-- What is known of a hop: the servers that come next, and a step that can have a next one.
abbrev IsHop : Text → Hop → Type 0
IsHop ip h =
    (h.step.ip ≡ ip)
    × All IsOpen h.next
    × (h.last ≡ false → (h.step.authoritative ≡ false) × (h.step.error ≡ []))

module _ {W : Type 0} (net : Network W) (names : NameService W) (machine : Machine W)
    (type_name : ℕ → Text) where
  next_by-IsOpen :
      (name : Text) (g : Glue) (s : Servers) (o : Option Text) (w : W)
      → IsOpenGlue g
      → IsOpenSome o
      → All IsOpen s.next
      → All IsOpen (next_by net names machine type_name name g s o w).0.next
  unfolding next_by
  next_by-IsOpen name g s none w hg i h =
      after_lookup-IsOpen name g.v6 s (names.lookup_ip_addr name w).0 hg.1 h
  next_by-IsOpen name g s (some ip) w hg i h = push-IsOpen ip s i h

  next_of-IsOpen :
      (g : Glue) (s : Servers) (d : RrData) (w : W)
      → IsOpenGlue g
      → All IsOpen s.next
      → All IsOpen (next_of net names machine type_name g s d w).0.next
  unfolding next_of
  next_of-IsOpen g s (RrData.ns name) w hg h =
      next_by-IsOpen (key_of name) g s (fresh_glue (key_of name) g.v4 s) w hg
        (fresh_glue-IsOpen (key_of name) g.v4 s hg.0) h
  next_of-IsOpen g s _ w hg h = h

  next_all-IsOpen :
      (g : Glue) (s : Servers) (rrs : List Rr) (w : W)
      → IsOpenGlue g
      → All IsOpen s.next
      → All IsOpen (next_all net names machine type_name g s rrs w).0.next
  unfolding next_all
  next_all-IsOpen g s [] w hg h = h
  next_all-IsOpen g s (rr ∷ rrs) w hg h =
      let (t, w₁) = next_of net names machine type_name g s rr.body w in
      next_all-IsOpen g t rrs w₁ hg (next_of-IsOpen g s rr.body w hg h)

  hop_by-IsHop :
      (ip qtype : Text) (duration : ℕ) (b : Bool) (m : Msg) (w : W)
      → m.authoritative ≡ b
      → IsHop ip (hop_by net names machine type_name ip qtype duration b m w).0
  unfolding hop_by answered_step
  hop_by-IsHop ip qtype duration true m w e = (refl, tt, λ f. cc)
  hop_by-IsHop ip qtype duration false m w e = (
    refl,
    next_all-IsOpen (glue_all (record { v4 = []; v6 = [] }) m.extra)
        (record { seen = []; next = [] }) m.ns w
        (glue_all-IsOpen (record { v4 = []; v6 = [] }) m.extra (tt, tt)) tt,
    λ f. (e, refl),
  )

  hop_of-IsHop :
      (ip qtype : Text) (duration : ℕ) (x : Exchanged) (w : W)
      → IsHop ip (hop_of net names machine type_name ip qtype duration x w).0
  unfolding hop_of failed_step
  hop_of-IsHop ip qtype duration (failure text timeout rtt) w = (refl, tt, λ f. cc)
  hop_of-IsHop ip qtype duration (response m rtt) w =
      hop_by-IsHop ip qtype duration m.authoritative m w refl

  trace_step-IsHop :
      (ip name qtype : Text) (w : W)
      → IsHop ip (trace_step net names machine type_name ip name qtype w).0
  unfolding trace_step
  trace_step-IsHop ip name qtype w = hop_of-IsHop ip qtype _ _ _

  -- A walk of `left` steps, which starts at the given servers.
  abbrev IsWalkFrom : ℕ → List Text → List TraceStep → Type 0
  IsWalkFrom left [] steps = steps ≡ []
  IsWalkFrom zero (ip ∷ servers) steps = steps ≡ []
  IsWalkFrom (suc left) (ip ∷ servers) [] = ⊥
  IsWalkFrom (suc left) (ip ∷ servers) (s ∷ rest) =
      (s.ip ≡ ip) × (length rest ≤ left) × IsWalk (s ∷ rest)

  single-IsWalk :
      (left : ℕ) (ip : Text) (s : TraceStep) (servers : List Text) (steps : List TraceStep)
      → s.ip ≡ ip
      → IsOpen ip
      → steps ≡ []
      → IsWalkFrom (suc left) (ip ∷ servers) (s ∷ steps)
  single-IsWalk left ip s servers [] a i e = (a, omega arith, ap is_private_or_local a ∙ i)
  single-IsWalk left ip s servers (t ∷ rest) a i e = absurd cc

  cons-IsWalk :
      (left : ℕ) (ip : Text) (s : TraceStep) (next servers : List Text) (steps : List TraceStep)
      → s.ip ≡ ip
      → IsOpen ip
      → (s.authoritative ≡ false) × (s.error ≡ [])
      → IsWalkFrom left next steps
      → IsWalkFrom (suc left) (ip ∷ servers) (s ∷ steps)
  cons-IsWalk left ip s [] servers steps a i e h = single-IsWalk left ip s servers steps a i h
  cons-IsWalk zero ip s (j ∷ next) servers steps a i e h =
      single-IsWalk zero ip s servers steps a i h
  cons-IsWalk (suc left) ip s (j ∷ next) servers [] a i e h = absurd h
  cons-IsWalk (suc left) ip s (j ∷ next) servers (t ∷ rest) a i e h =
      (a, omega (arith, h.1), (ap is_private_or_local a ∙ i, e.0, e.1, h.2))

  go_on-IsWalk :
      (left : ℕ) (ip : Text) (servers : List Text) (h : Hop) (rest : Action W (List TraceStep))
      (w : W)
      → IsHop ip h
      → IsOpen ip
      → IsWalkFrom left h.next (rest w).0
      → IsWalkFrom (suc left) (ip ∷ servers) (go_on net names machine type_name h rest w).0
  unfolding go_on
  go_on-IsWalk left ip servers h rest w k i r = go h.last (is_empty h.next) refl
    where
      go :
          (b c : Bool)
          → h.last ≡ b
          → IsWalkFrom
              (suc left)
              (ip ∷ servers)
              ((if b || c then pure (h.step ∷ []) else do steps ← rest; pure (h.step ∷ steps)) w).0
      go true c e = single-IsWalk left ip h.step servers [] k.0 i refl
      go false true e = single-IsWalk left ip h.step servers [] k.0 i refl
      go false false e = cons-IsWalk left ip h.step h.next servers (rest w).0 k.0 i (k.2 e) r

  walk-IsWalk :
      (left : ℕ) (servers : List Text) (name qtype : Text) (w : W)
      → All IsOpen servers
      → IsWalkFrom left servers (walk net names machine type_name left servers name qtype w).0
  unfolding walk
  walk-IsWalk zero [] name qtype w o = refl
  walk-IsWalk zero (ip ∷ servers) name qtype w o = refl
  walk-IsWalk (suc left) [] name qtype w o = refl
  walk-IsWalk (suc left) (ip ∷ servers) name qtype w o =
      let (h, w₁) = trace_step net names machine type_name ip name qtype w in
      let hop = trace_step-IsHop ip name qtype w in
      go_on-IsWalk left ip servers h (walk net names machine type_name left h.next name qtype) w₁
        hop o.0 (walk-IsWalk left h.next name qtype w₁ hop.1)

  walked :
      (steps : List TraceStep)
      → IsWalkFrom max_trace_steps root_servers steps
      → (1 ≤ length steps)
        × (length steps ≤ max_trace_steps)
        × (map (λ (s : TraceStep). s.ip) (take 1 steps) ≡ take 1 root_servers)
        × IsWalk steps
  unfolding root_servers
  walked [] h = absurd h
  walked (s ∷ rest) h = (omega arith, omega (arith, h.1), ap (λ i. i ∷ []) h.0, h.2)

  -- For a name that is not empty and a supported type a trace has a result, whatever the servers and
  -- the resolver answer: 1 to 24 steps, of which the first asks the first root server. Each server
  -- that is asked has an address that is not private, loopback or link-local, and no step but the
  -- last has an error or an authoritative answer.
  pub trace-IsWalk :
      (name qtype : Text) (w : W)
      → is_empty name ≡ false
      → is_supported qtype ≡ true
      → (r : TraceResult) × ((trace net names machine type_name name qtype w).0 ≡ ok r)
        × (1 ≤ length r.steps)
        × (length r.steps ≤ max_trace_steps)
        × (map (λ (s : TraceStep). s.ip) (take 1 r.steps) ≡ take 1 root_servers)
        × IsWalk r.steps
  unfolding trace
  trace-IsWalk name qtype w e s =
      let steps =
        (walk net names machine type_name max_trace_steps root_servers (fqdn name) qtype w).0 in
      let r : TraceResult = record { name = trim_dot (fqdn name); type = qtype; steps = steps } in
      let (a, b, c, d) =
        walked steps
          (walk-IsWalk max_trace_steps root_servers (fqdn name) qtype w root_servers-IsOpen) in
      (r, rw (e, s) refl, a, b, c, d)
