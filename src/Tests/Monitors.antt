-- ===== src/Tests/Monitors.antt =====
-- Monitors whose resolvers give other values than expected.
use mathlib.Core.List.Perm
use dnsmon.Base.{
  ℕ, ◌≤◌, ◌<◌, ◌≡◌, ◌≢◌, refl, ◌↔◌, List, [], ◌∷◌, none, some, true, false, Text, bytes, SameTexts,
}
use dnsmon.Dns.{Status, ResolverResult}
use dnsmon.Settings.{NotificationChannel, Monitor, EventStatus}
use dnsmon.World.{ok}
use dnsmon.Checker.Summary.{Iterate, build_summary}
use dnsmon.Monitor.{Evaluator, consensus, evaluate_change, evaluate_propagation, set_equal, run}
use dnsmon.Monitor.Values.{set_equal_iff}
use dnsmon.Monitor.Drift.{IsCaptured, evaluate_change-changed_iff, evaluate_change-forgets}
use dnsmon.Monitor.Propagation.{responding, AllAgree, evaluate_propagation-ok_iff}
use dnsmon.Monitor.Alerts.{IsAlert, run-IsAlert}
use dnsmon.Monitor.Consensus.{serving_text, text_of, consensus-greatest}
use dnsmon.Tests.Fixtures.{quad9, google, result_of, reply, World, settings, storage, checker}

abbrev channel : NotificationChannel
channel = record {
  id = bytes "ops";
  type = bytes "gowa";
  name = bytes "Operators";
  enabled = true;
  config = [];
}

abbrev monitor : Monitor
monitor = record {
  id = bytes "m1";
  name = [];
  type = bytes "change";
  fqdn = bytes "example.com";
  record_type = bytes "A";
  expected = bytes "1.1.1.1" ∷ [];
  scheduler_id = [];
  channel_id = bytes "ops";
  enabled = true;
  created_at = 1;
  updated_at = 1;
}

abbrev same : Iterate
same m = m

abbrev moved : List ResolverResult
moved = reply google ∷ reply google ∷ result_of quad9 Status.timeout [] ∷ []

abbrev gone : List ResolverResult
gone = result_of google Status.ok [] ∷ []

abbrev evaluator : Evaluator World
evaluator = record {
  check = λ req w. (
    ok (record {
      id = [];
      name = req.name;
      type = req.type;
      created_at = 1;
      results = moved;
      summary = build_summary same moved;
    }),
    w,
  );
  store = record storage {
    get_settings = λ w. (ok (record settings { notifications = channel ∷ [] }), w);
  };
  send = λ c message w. (ok tt, w);
  machine = checker.machine;
}

abbrev now : World
now = (5, [])

set_equal_iff_example :
    (set_equal (bytes "a" ∷ bytes "b" ∷ []) (bytes "b" ∷ bytes "a" ∷ []) ≡ true)
    ↔ SameTexts (bytes "a" ∷ bytes "b" ∷ []) (bytes "b" ∷ bytes "a" ∷ [])
set_equal_iff_example = set_equal_iff (bytes "a" ∷ bytes "b" ∷ []) (bytes "b" ∷ bytes "a" ∷ [])

evaluate_change-changed_iff_example :
    ((evaluate_change evaluator same monitor moved now).0.1.status ≡ EventStatus.changed)
    ↔ ((monitor.expected ≢ []) × ¬ SameTexts (consensus same moved) monitor.expected)
evaluate_change-changed_iff_example = evaluate_change-changed_iff evaluator same monitor moved now

changed_here : (evaluate_change evaluator same monitor moved now).0.1.status ≡ EventStatus.changed
unfolding evaluate_change dnsmon.Base.text_eq dnsmon.Base.join dnsmon.Checker.Summary.majority
changed_here = refl

evaluate_change-forgets_example :
    let once = (evaluate_change evaluator same monitor gone now).0 in
    IsCaptured evaluator once.0
      (consensus same moved)
      now
      (evaluate_change evaluator same once.0 moved now)
unfolding consensus dnsmon.Base.text_eq dnsmon.Base.join dnsmon.Checker.Summary.majority
evaluate_change-forgets_example =
    evaluate_change-forgets evaluator same monitor gone moved now now refl

evaluate_propagation-ok_iff_example :
    ((evaluate_propagation evaluator same monitor moved now).0.1.status ≡ EventStatus.ok)
    ↔ ((0 < responding moved) × AllAgree monitor.expected moved)
evaluate_propagation-ok_iff_example = evaluate_propagation-ok_iff evaluator same monitor moved now

run-IsAlert_example : IsAlert evaluator monitor (run evaluator same monitor now).0.1.status
unfolding run dnsmon.Base.text_eq dnsmon.Base.join dnsmon.Checker.Summary.majority
run-IsAlert_example = run-IsAlert evaluator same monitor now refl

consensus-greatest_example :
    serving_text (bytes "9.9.9.9") moved ≤ serving_text (text_of (consensus same moved)) moved
consensus-greatest_example = consensus-greatest same moved (λ m. Perm.refl m) (bytes "9.9.9.9")
