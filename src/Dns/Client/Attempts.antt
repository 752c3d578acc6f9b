-- ===== src/Dns/Client/Attempts.antt =====
-- How many exchanges a query takes, and what its result reports.
use dnsmon.Base.{
  ◌⊎◌, ℕ, zero, suc, ◌+◌, ◌≤◌, ◌≡◌, ◌≢◌, refl, Option, none, some, Bool, true, false, Text, arith,
  ◌-◌, ◌/◌, [], ℤ, pos, negsuc,
}
use dnsmon.Dns.{Resolver, ResolverResult, Status}
use dnsmon.Dns.Records.{answers_of, rcode_to_status}
use dnsmon.World.{Action, Machine}
use dnsmon.Dns.Client.{
  Exchanged, response, failure, Question, Network, DnsConfig, max_attempts, Tried, stopped, ended,
  is_again, result_of, stopped_result, milliseconds, follow, round, attempts, conclude, ask_of,
  query,
}
use dnsmon.Dns.Client.Rounds.{Rounds, attempts-Rounds, Rounds-ended}

module _ {W : Type 0} (net : Network W) (machine : Machine W) (type_name : ℕ → Text) where
  -- What a result says of the query as a whole.
  abbrev Stamped : Resolver → ℕ → ℕ → Text → ResolverResult → Type 0
  Stamped r start nanoseconds error x =
      (x.resolver ≡ r)
      × (x.queried_at ≡ start)
      × (x.duration_ms ≡ nanoseconds / 1000000)
      × (x.error ≡ error)

  -- The status for a response code.
  abbrev StatusFor : ℕ → Status → Type 0
  StatusFor rcode s =
      (rcode ≡ 0) × (s ≡ Status.ok)
      ⊎ ((rcode ≡ 2) × (s ≡ Status.servfail)
          ⊎ ((rcode ≡ 3) × (s ≡ Status.nxdomain)
              ⊎ ((rcode ≡ 5) × (s ≡ Status.refused)
                  ⊎ ((rcode ≢ 0) × (rcode ≢ 2) × (rcode ≢ 3) × (rcode ≢ 5) × (s ≡ Status.error)))))

  -- What the result says of the end of the loop, in the world `v`: a timeout where the context was
  -- done, with the time since the start; the failure of the last exchange, as a timeout or another
  -- error; or its response. The query ends in the world `v'`.
  abbrev Tells : Resolver → ℕ → Tried → W → ResolverResult → W → Type 0
  Tells r start (stopped text) v x v' =
      (x.status ≡ Status.timeout)
      × (x.answers ≡ [])
      × Stamped r start ((machine.now v).0 - start) text x
      × (v' ≡ (machine.now v).1)
  Tells r start (ended none) v x v' = ⊥
  Tells r start (ended (some (failure text true rtt))) v x v' =
      (x.status ≡ Status.timeout) × (x.answers ≡ []) × Stamped r start rtt text x × (v' ≡ v)
  Tells r start (ended (some (failure text false rtt))) v x v' =
      (x.status ≡ Status.error) × (x.answers ≡ []) × Stamped r start rtt text x × (v' ≡ v)
  Tells r start (ended (some (response m rtt))) v x v' =
      StatusFor m.rcode x.status
      × (x.answers ≡ answers_of type_name m.answer)
      × (x.authority ≡ answers_of type_name m.ns)
      × Stamped r start rtt [] x
      × (v' ≡ v)

  -- What a query reports that begins in the world `w` at the time `start`, and ends in `v'`.
  abbrev pub Reports : DnsConfig → Resolver → Text → ℕ → ℕ → W → Option ResolverResult → W → Type 0
  Reports cfg r name qtype start w none v' = (n : ℕ) × (cfg.retry ≡ negsuc n) × (v' ≡ w)
  Reports cfg r name qtype start w (some x) v' =
      (n : ℕ) × (cfg.retry ≡ pos n)
      × (t : Tried) × (v : W) × Rounds net machine type_name
          (ask_of net machine type_name cfg r name qtype) (suc n) w t v
      × Tells r start t v x v'

  rcode_to_status-StatusFor : (rcode : ℕ) → StatusFor rcode (rcode_to_status rcode)
  unfolding rcode_to_status
  rcode_to_status-StatusFor rcode = ground arith

  conclude-Reports :
      (cfg : DnsConfig) (r : Resolver) (name : Text) (qtype start n : ℕ) (w : W) (t : Tried) (v : W)
      → cfg.retry ≡ pos n
      → Rounds net machine type_name (ask_of net machine type_name cfg r name qtype) (suc n) w t v
      → let (x, v') = conclude net machine type_name r start t v in
        Reports cfg r name qtype start w x v'
  unfolding conclude result_of stopped_result milliseconds
  conclude-Reports cfg r name qtype start n w (stopped text) v e h =
      (n, e, stopped text, v, h, (refl, refl, (refl, refl, refl, refl), refl))
  conclude-Reports cfg r name qtype start n w (ended none) v e h =
      absurd
        (Rounds-ended net machine type_name (ask_of net machine type_name cfg r name qtype) h refl)
  conclude-Reports cfg r name qtype start n w (ended (some (failure text true rtt))) v e h =
      (n, e, _, v, h, (refl, refl, (refl, refl, refl, refl), refl))
  conclude-Reports cfg r name qtype start n w (ended (some (failure text false rtt))) v e h =
      (n, e, _, v, h, (refl, refl, (refl, refl, refl, refl), refl))
  conclude-Reports cfg r name qtype start n w (ended (some (response m rtt))) v e h =
      let told = rcode_to_status-StatusFor m.rcode in
      (n, e, _, v, h, (told, refl, refl, (refl, refl, refl, refl), refl))

  tried-Reports :
      (cfg : DnsConfig) (r : Resolver) (name : Text) (qtype start : ℕ) (retry : ℤ) (w : W)
      → cfg.retry ≡ retry
      → let ask = ask_of net machine type_name cfg r name qtype in
        let (t, v) = attempts net machine type_name ask (max_attempts retry) none w in
        let (x, v') = conclude net machine type_name r start t v in
        Reports cfg r name qtype start w x v'
  unfolding max_attempts
  tried-Reports cfg r name qtype start (negsuc n) w e = unfold attempts conclude in (n, e, refl)
  tried-Reports cfg r name qtype start (pos n) w e =
      let ask = ask_of net machine type_name cfg r name qtype in
      let (t, v) = attempts net machine type_name ask (suc n) none w in
      conclude-Reports cfg r name qtype start n w t v e
        (attempts-Rounds net machine type_name ask (suc n) none w (omega arith))

  -- `Query` fails to give a result only where the configured number of retries is negative, and then
  -- makes no exchange. Otherwise its result tells how its attempts ended, which are one more than the
  -- retries at most: each looks at the context and ends the query if that is done; else it makes an
  -- exchange, which ends the query unless it times out while attempts are left. The result has the
  -- text and the time of a context that is done, as a timeout; or those of the last failure, as a
  -- timeout or another error; or the response's status and answers.
  pub query-Reports :
      (cfg : DnsConfig) (r : Resolver) (name : Text) (qtype : ℕ) (w : W)
      → let (start, w₁) = machine.now w in
        let (x, v') = query net machine type_name cfg r name qtype w in
        Reports cfg r name qtype start w₁ x v'
  unfolding query
  query-Reports cfg r name qtype w =
      let (start, w₁) = machine.now w in tried-Reports cfg r name qtype start cfg.retry w₁ refl

module _ {W : Type 0} (net : Network W) (machine : Machine W) (type_name : ℕ → Text)
    (spent : W → ℕ) where
  -- A count of the exchanges: each adds one, and the context and the clock none.
  pub record IsCounted : Type 0 where
    pub exchange_adds :
        (proto server : Text) (q : Question) (w : W)
        → spent (net.exchange proto server q w).1 ≡ suc (spent w)
    pub done_keeps : (w : W) → spent (net.done w).1 ≡ spent w
    pub now_keeps : (w : W) → spent (machine.now w).1 ≡ spent w

  module _ (counted : IsCounted) (ask : Action W Exchanged)
      (adds : (w : W) → spent (ask w).1 ≡ suc (spent w)) where
    follow-spent :
        (b : Bool) (x : Exchanged) (again : Action W Tried) (n : ℕ) (w : W)
        → spent (again w).1 ≤ n
        → spent w ≤ n
        → spent (follow net machine type_name b x again w).1 ≤ n
    unfolding follow
    follow-spent true x again n w h i = h
    follow-spent false x again n w h i = i

    round-spent :
        (left : ℕ) (again : Exchanged → Action W Tried) (d : Option Text) (w : W)
        → ((x : Exchanged) (v : W) → spent (again x v).1 ≤ spent v + left)
        → spent (round net machine type_name ask left again d w).1 ≤ spent w + suc left
    unfolding round
    round-spent left again (some text) w h = omega arith
    round-spent left again none w h =
        let (x, w₁) = ask w in
        follow-spent (is_again left x) x (again x) (spent w + suc left) w₁
          (omega (arith, h x w₁, adds w)) (omega (arith, adds w))

    attempts-spent :
        (k : ℕ) (last : Option Exchanged) (w : W)
        → spent (attempts net machine type_name ask k last w).1 ≤ spent w + k
    unfolding attempts
    attempts-spent zero last w = omega arith
    attempts-spent (suc left) last w =
        let (d, w₁) = net.done w in
        omega (
          arith,
          round-spent left (λ x. attempts net machine type_name ask left (some x)) d w₁
              (λ x v. attempts-spent left (some x) v),
          counted.done_keeps w,
        )

  conclude-spent :
      (r : Resolver) (start : ℕ) (t : Tried) (w : W)
      → IsCounted
      → spent (conclude net machine type_name r start t w).1 ≡ spent w
  unfolding conclude
  conclude-spent r start (stopped text) w c = c.now_keeps w
  conclude-spent r start (ended none) w c = refl
  conclude-spent r start (ended (some y)) w c = refl

  ask-adds :
      (cfg : DnsConfig) (r : Resolver) (name : Text) (qtype : ℕ)
      → IsCounted
      → (w : W) → spent (ask_of net machine type_name cfg r name qtype w).1 ≡ suc (spent w)
  unfolding ask_of
  ask-adds cfg r name qtype c w = c.exchange_adds _ _ _ w

  -- At most one exchange more than the retries, and none where their number is negative.
  abbrev pub IsWithin : ℤ → ℕ → ℕ → Type 0
  IsWithin (pos n) earlier later = later ≤ earlier + (1 + n)
  IsWithin (negsuc n) earlier later = later ≤ earlier

  IsWithin-of-max_attempts :
      (retry : ℤ) (earlier later : ℕ)
      → later ≤ earlier + max_attempts retry
      → IsWithin retry earlier later
  unfolding max_attempts
  IsWithin-of-max_attempts (pos n) earlier later h = omega arith
  IsWithin-of-max_attempts (negsuc n) earlier later h = omega arith

  -- If each exchange adds one to a count, and the context and the clock nothing: a query makes at most
  -- one exchange more than the retries that are configured, and none where their number is negative.
  pub query_bounded :
      IsCounted
      → (cfg : DnsConfig) (r : Resolver) (name : Text) (qtype : ℕ) (w : W)
      → IsWithin cfg.retry (spent w) (spent (query net machine type_name cfg r name qtype w).1)
  unfolding query
  query_bounded c cfg r name qtype w =
      let (start, w₁) = machine.now w in
      let ask = ask_of net machine type_name cfg r name qtype in
      let (t, w₂) = attempts net machine type_name ask (max_attempts cfg.retry) none w₁ in
      IsWithin-of-max_attempts cfg.retry (spent w) _ (
        omega (
          arith,
          c.now_keeps w,
          attempts-spent c ask (ask-adds cfg r name qtype c) (max_attempts cfg.retry) none w₁,
          conclude-spent r start t w₂ c,
        ))
