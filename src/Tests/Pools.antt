-- ===== src/Tests/Pools.antt =====
-- A run of the goroutines for one resolver.
use dnsmon.Base.{◌*◌, ◌≤◌, ◌≡◌, refl, ◌⊎◌, List, [], ◌∷◌, length, ltb→lt, some, none, ◌↔◌, pos}
use dnsmon.Dns.{Resolver, ResolverResult}
use dnsmon.Checker.FanOut.{
  Phase, Pool, capacity, start, Step, acquire, store, release, Reach, here, next, IsDone,
}
use dnsmon.Checker.FanOut.Invariant.{weigh, holds, IsFilled, fan_out_bounded, fan_out-IsFilled}
use dnsmon.Checker.FanOut.Progress.{Finishes, fan_out_progress, fan_out_terminates}
use dnsmon.Tests.Fixtures.{quad9, reply}

abbrev Replies : Resolver → ResolverResult → Type 0
Replies r x = x ≡ reply r

abbrev one : List Resolver
one = quad9 ∷ []

abbrev querying : Pool
querying = record { phases = Phase.running ∷ []; slots = none ∷ []; used = 1 }

abbrev answered : Pool
answered = record { phases = Phase.stored ∷ []; slots = some (reply quad9) ∷ []; used = 1 }

abbrev finished_pool : Pool
finished_pool = record { phases = Phase.finished ∷ []; slots = some (reply quad9) ∷ []; used = 0 }

run_querying : Reach Replies one (capacity (pos 1)) (start one) 1 querying
unfolding start capacity
run_querying = next here (acquire 0 refl (ltb→lt _ _ refl))

run_answered : Reach Replies one (capacity (pos 1)) (start one) 2 answered
run_answered = next run_querying (store 0 quad9 (reply quad9) refl refl refl)

run_finished : Reach Replies one (capacity (pos 1)) (start one) 3 finished_pool
run_finished = next run_answered (release 0 refl)

fan_out_bounded_example : weigh holds querying.phases ≤ capacity (pos 1)
fan_out_bounded_example = fan_out_bounded Replies one (capacity (pos 1)) 1 querying run_querying

fan_out-IsFilled_example : IsFilled Replies one finished_pool.slots × (finished_pool.used ≡ 0)
fan_out-IsFilled_example =
    fan_out-IsFilled Replies one (capacity (pos 1)) 3 finished_pool run_finished (refl, tt)

fan_out_progress_example :
    IsDone querying ⊎ ((q : Pool) × Step Replies one (capacity (pos 1)) querying q)
fan_out_progress_example =
    fan_out_progress Replies one (pos 1) (λ r. (reply r, refl)) 1 querying run_querying

fan_out_terminates_example :
    (1 ≤ 3 * length one)
    × ((1 ≡ 3 * length one) ↔ IsDone querying)
    × Finishes Replies one (capacity (pos 1)) querying
fan_out_terminates_example =
    fan_out_terminates Replies one (pos 1) (λ r. (reply r, refl)) 1 querying run_querying
