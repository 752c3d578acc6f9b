-- ===== src/Monitor.antt =====
-- internal/monitor/monitor.go: the evaluation of a monitor. The event of a run is put together at its
-- end, from a `Verdict`; the monitor, which the code changes in place, comes back beside it.
pub mod Values
pub mod Drift
pub mod Propagation
pub mod Alerts
pub mod Consensus
use dnsmon.Base.{
  ℕ, ◌+◌, List, [], ◌∷◌, ◌++◌, map, Option, none, some, Bool, true, false, ◌&&◌, Text, bytes,
  is_empty, text_eq, if◌then◌else◌, join, sort_texts, length, ◌==◌, ltb, bump, insert, lookup,
  decimal,
}
use dnsmon.Dns.{Status, Answer, ResolverResult}
use dnsmon.Dns as Dns
use dnsmon.Settings.{
  NotificationChannel, Settings, Monitor, MonitorEvent, EventStatus, monitor_change,
}
use dnsmon.World.{Result, ok, err, error_text, Action, ◌>>=◌, pure, Storage, Machine}
use dnsmon.Settings.Ids.{new_id}
use dnsmon.Checker.Request.{CheckRequest}
use dnsmon.Checker.Summary.{Iterate, majority}

-- `CheckRunner`, `Notifier` and the clock, beside the storage.
pub record Evaluator (W : Type 0) : Type 0 where
  pub check : CheckRequest → W → Result Dns.Check × W
  pub store : Storage W
  pub send : NotificationChannel → Text → W → Result (Unit {0}) × W
  pub machine : Machine W

-- What an evaluation writes into the event.
pub record Verdict : Type 0 where
  pub status : EventStatus
  pub observed : List Text
  pub message : Text
  pub notified : Bool

unfoldable pub answer_values : ResolverResult → List Text
answer_values r = map (λ (a : Answer). a.value) r.answers

-- `normalize(vs)`
unfoldable pub normalize : List Text → List Text
unfolding sort_texts
normalize vs = sort_texts vs

-- The loop of `setEqual`, over lists of one length.
unfoldable pub all_equal : List Text → List Text → Bool
all_equal [] bs = true
all_equal (a ∷ as') [] = false
all_equal (a ∷ as') (b ∷ bs) = text_eq a b && all_equal as' bs

-- `setEqual(a, b)`
unfoldable pub set_equal : List Text → List Text → Bool
unfolding all_equal normalize
set_equal a b = if length a == length b then all_equal (normalize a) (normalize b) else false

-- `counts` and `repr`
pub record Counts : Type 0 where
  pub counts : List (Text × ℕ)
  pub repr : List (Text × List Text)

-- The body of the loop of `consensus`, on the status of the result.
unfoldable pub count_by : Status → List Text → Counts → Counts
unfolding bytes bump insert
count_by Status.ok vs c =
    let key = join (bytes ",") vs in
    record { counts = bump key c.counts; repr = insert key vs c.repr }
count_by _ vs c = c

unfoldable pub count_all : Counts → List ResolverResult → Counts
unfolding count_by answer_values normalize
count_all c [] = c
count_all c (r ∷ rs) = count_all (count_by r.status (normalize (answer_values r)) c) rs

-- `repr[best]`, which is nil where the key is missing
unfoldable pub values_at : Text → List (Text × List Text) → List Text
unfolding lookup
values_at key repr = elim (lookup key repr) [ none ↦ [] | some vs ↦ vs ]

-- `consensus(check)`; the order of the range over `counts` is the argument `iterate`.
unfoldable pub consensus : Iterate → List ResolverResult → List Text
unfolding count_all values_at
consensus iterate results =
    let c = count_all (record { counts = []; repr = [] }) results in
    values_at (majority (iterate c.counts)).0 c.repr

-- `join(vs)`
unfoldable pub listing : List Text → Text
unfolding bytes
listing [] = bytes "(empty)"
listing (v ∷ vs) = join (bytes ", ") (v ∷ vs)

label : Monitor → Text
unfolding bytes
label m =
    let name = if is_empty m.name then m.fqdn else m.name in
    name ++ bytes " (" ++ m.fqdn ++ bytes " " ++ m.record_type ++ bytes ")"

-- The first enabled channel with the id.
unfoldable pub pick_channel : Text → List NotificationChannel → Option NotificationChannel
pick_channel id [] = none
pick_channel id (c ∷ cs) = if text_eq c.id id && c.enabled then some c else pick_channel id cs

abbrev pub is_sent : Result (Unit {0}) → Bool
is_sent (ok u) = true
is_sent (err e) = false

rebaseline : Monitor → List Text → ℕ → Monitor
rebaseline m observed now = record m { expected = observed; updated_at = now }

-- The two counters of `evaluatePropagation`: responses and matches.
unfoldable pub score_by : Status → Bool → ℕ × ℕ → ℕ × ℕ
score_by Status.ok same (responded, matched) =
    (responded + 1, if same then matched + 1 else matched)
score_by Status.nxdomain same (responded, matched) = (responded + 1, matched)
score_by _ same s = s

unfoldable pub score : List Text → ℕ × ℕ → List ResolverResult → ℕ × ℕ
unfolding score_by set_equal answer_values
score expected s [] = s
score expected s (r ∷ rs) =
    score expected (score_by r.status (set_equal (answer_values r) expected) s) rs

check_of : Monitor → CheckRequest
check_of m = record {
  name = m.fqdn;
  type = m.record_type;
  resolver_ids = [];
  custom_resolvers = [];
  save = false;
  allow_private = false;
  no_cache = true;
}

event_of : Text → Text → ℕ → Verdict → MonitorEvent
event_of id monitor_id now v = record {
  id = id;
  monitor_id = monitor_id;
  timestamp = now;
  status = v.status;
  observed = v.observed;
  message = v.message;
  notified = v.notified;
}

module _ {W : Type 0} (e : Evaluator W) where
  unfoldable pub deliver : Text → Option NotificationChannel → Action W Bool
  deliver message none = pure false
  deliver message (some c) = do done ← e.send c message; pure (is_sent done)

  unfoldable pub notify_with : Text → Text → Result Settings → Action W Bool
  unfolding deliver pick_channel
  notify_with id message (err x) = pure false
  notify_with id message (ok s) = deliver message (pick_channel id s.notifications)

  -- `maybeNotify`
  unfoldable pub maybe_notify : Text → Text → Action W Bool
  unfolding notify_with
  maybe_notify [] message = pure false
  maybe_notify (b ∷ id) message = do s ← e.store.get_settings; notify_with (b ∷ id) message s

  -- The cases of `evaluateChange`: whether there is no baseline, and whether the observed values are
  -- those of the baseline.
  unfoldable pub drift : Monitor → List Text → Bool → Bool → Action W (Monitor × Verdict)
  unfolding rebaseline label listing bytes maybe_notify
  drift m observed true same = do
    now ← e.machine.now
    done ← e.store.save_monitor (rebaseline m observed now)
    pure (
      rebaseline m observed now,
      record {
        status = EventStatus.ok;
        observed = observed;
        message = bytes "Baseline captured: " ++ listing observed;
        notified = false;
      },
    )
  drift m observed false false = do
    now ← e.machine.now
    done ← e.store.save_monitor (rebaseline m observed now)
    notified ← maybe_notify m.channel_id (
        bytes "[dnsmon] "
        ++ label m
        ++ bytes ": value changed from "
        ++ listing m.expected
        ++ bytes " to "
        ++ listing observed)
    pure (
      rebaseline m observed now,
      record {
        status = EventStatus.changed;
        observed = observed;
        message = bytes "Changed: " ++ listing m.expected ++ bytes " → " ++ listing observed;
        notified = notified;
      },
    )
  drift m observed false true = pure (
    m,
    record {
      status = EventStatus.ok;
      observed = observed;
      message = bytes "No change.";
      notified = false;
    },
  )

  -- `evaluateChange`
  unfoldable pub evaluate_change :
      Iterate → Monitor → List ResolverResult → Action W (Monitor × Verdict)
  unfolding drift consensus set_equal
  evaluate_change iterate m results =
      let observed = consensus iterate results in
      drift m observed (is_empty m.expected) (set_equal observed m.expected)

  -- The end of `evaluatePropagation`, on whether all responses match.
  unfoldable pub conclude : Monitor → List Text → ℕ × ℕ → Bool → Action W (Monitor × Verdict)
  unfolding label listing bytes decimal maybe_notify
  conclude m observed (responded, matched) true = pure (
    m,
    record {
      status = EventStatus.ok;
      observed = observed;
      message =
          bytes "Propagated: all "
          ++ decimal responded
          ++ bytes " resolvers return the expected value.";
      notified = false;
    },
  )
  conclude m observed (responded, matched) false = do
    notified ← maybe_notify m.channel_id (
        bytes "[dnsmon] "
        ++ label m
        ++ bytes ": propagation incomplete — "
        ++ decimal matched
        ++ bytes "/"
        ++ decimal responded
        ++ bytes " resolvers match expected "
        ++ listing m.expected)
    pure (
      m,
      record {
        status = EventStatus.not_propagated;
        observed = observed;
        message =
            bytes "Not propagated: "
            ++ decimal matched
            ++ bytes " of "
            ++ decimal responded
            ++ bytes " resolvers match the expected value.";
        notified = notified;
      },
    )

  -- `evaluatePropagation`
  unfoldable pub evaluate_propagation :
      Iterate → Monitor → List ResolverResult → Action W (Monitor × Verdict)
  unfolding score conclude consensus
  evaluate_propagation iterate m results =
      let s = score m.expected (0, 0) results in
      conclude m (consensus iterate results) s (ltb 0 s.0 && s.1 == s.0)

  -- The `switch` of `Run`.
  unfoldable pub evaluate : Iterate → Monitor → Result Dns.Check → Action W (Monitor × Verdict)
  unfolding evaluate_change evaluate_propagation monitor_change bytes
  evaluate iterate m (err x) = pure (
    m,
    record {
      status = EventStatus.error;
      observed = [];
      message = bytes "Check failed: " ++ error_text x;
      notified = false;
    },
  )
  evaluate iterate m (ok ck) =
      if text_eq m.type monitor_change
      then evaluate_change iterate m ck.results
      else evaluate_propagation iterate m ck.results

  -- `Run`
  unfoldable pub run : Iterate → Monitor → Action W (Monitor × MonitorEvent)
  unfolding evaluate check_of event_of
  run iterate m = do
    id ← new_id e.machine
    now ← e.machine.now
    answer ← e.check (check_of m)
    judged ← evaluate iterate m answer
    done ← e.store.append_monitor_event (event_of id m.id now judged.1)
    pure (judged.0, event_of id m.id now judged.1)

  run_found : Iterate → Result Monitor → Action W (Result MonitorEvent)
  unfolding run
  run_found iterate (err x) = pure (err x)
  run_found iterate (ok m) = do judged ← run iterate m; pure (ok judged.1)

  -- `RunByID`
  unfoldable pub run_by_id : Iterate → Text → Action W (Result MonitorEvent)
  unfolding run_found
  run_by_id iterate id = do found ← e.store.get_monitor id; run_found iterate found
