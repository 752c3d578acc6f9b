-- ===== src/Tests/Stores.antt =====
-- Sequences of operations on the stores.
use dnsmon.Base.{List, [], ◌∷◌, none, true, bytes}
use dnsmon.Dns.{Check}
use dnsmon.Settings.{Monitor, monitor_change}
use dnsmon.World.{Machine}
use dnsmon.Storage.{TimeFormat}
use dnsmon.Storage.Documents.{Operation}
use dnsmon.Storage.Tables.{View}
use dnsmon.Storage.Refinement.{Refines, checks_of, monitors_of, check_id, monitor_id}
use dnsmon.Storage.Refinement.Sqlite.{sqlite-Refines}
use dnsmon.Storage.Refinement.Postgres.{postgres-Refines}
use dnsmon.Storage.Sqlite as Sqlite
use dnsmon.Storage.Postgres as Postgres
use dnsmon.Tests.Codecs.{check, monitor, codec_of-IsCodec, json}
use dnsmon.Tests.Storage.{database, database-IsSql}
use dnsmon.Tests.Fixtures.{quad9, reply}

abbrev kept : Check
kept = record {
  id = bytes "c1";
  name = bytes "example.com";
  type = bytes "A";
  created_at = 7;
  results = reply quad9 ∷ [];
  summary = record {
    total_resolvers = 1;
    responded = 1;
    nxdomain = 0;
    timeouts = 0;
    errors = 0;
    unique_answer_sets = 1;
    consensus = [];
    converged_pct = 100;
    propagation_eta = none;
  };
}

abbrev watched : Monitor
watched = record {
  id = bytes "m1";
  name = bytes "mail";
  type = monitor_change;
  fqdn = bytes "example.com";
  record_type = bytes "MX";
  expected = [];
  scheduler_id = bytes "s1";
  channel_id = bytes "n1";
  enabled = true;
  created_at = 7;
  updated_at = 9;
}

abbrev format : TimeFormat
format = record { rfc3339 = λ t. t ∷ []; parse_rfc3339 = λ s. none; rfc3339_before = λ t days. [] }

abbrev machine : Machine View
machine = record { now = λ v. (0, v); random = λ n v. (none, v) }

abbrev none_yet : View
none_yet t k = none

abbrev check_operations : List (Operation Check)
check_operations =
    Operation.get (bytes "c1")
    ∷ Operation.save kept
    ∷ Operation.get (bytes "c1")
    ∷ Operation.delete (bytes "c1")
    ∷ Operation.delete (bytes "c1")
    ∷ []

abbrev monitor_operations : List (Operation Monitor)
monitor_operations =
    Operation.save watched
    ∷ Operation.save (record watched { enabled = true })
    ∷ Operation.delete (bytes "m1")
    ∷ Operation.get (bytes "m1")
    ∷ []

sqlite-Refines_example :
    let store = Sqlite.store database json format machine in
    Refines
      (checks_of store)
      check_id
      json.check
      (bytes "checks")
      (λ v. v)
      none_yet
      check_operations
    × Refines
        (monitors_of store)
        monitor_id
        json.monitor
        (bytes "monitors")
        (λ v. v)
        none_yet
        monitor_operations
sqlite-Refines_example =
    sqlite-Refines database json format machine (λ v. v) database-IsSql (codec_of-IsCodec check)
      (codec_of-IsCodec monitor) check_operations monitor_operations none_yet (λ k. tt) (λ k. tt)

postgres-Refines_example :
    let store = Postgres.store database json in
    Refines
      (checks_of store)
      check_id
      json.check
      (bytes "checks")
      (λ v. v)
      none_yet
      check_operations
    × Refines
        (monitors_of store)
        monitor_id
        json.monitor
        (bytes "monitors")
        (λ v. v)
        none_yet
        monitor_operations
postgres-Refines_example =
    postgres-Refines database json (λ v. v) database-IsSql (codec_of-IsCodec check)
      (codec_of-IsCodec monitor) check_operations monitor_operations none_yet (λ k. tt) (λ k. tt)
