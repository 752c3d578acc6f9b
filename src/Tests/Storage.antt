-- ===== src/Tests/Storage.antt =====
-- The stores over a database that keeps the data of its tables as a function.
use dnsmon.Base.{
  ℕ, ◌≡◌, refl, inr, [], Option, none, some, Bool, true, false, Text, bytes, ◌&&◌, text_eq,
  if◌then◌else◌, member, arith,
}
use dnsmon.World.{ok}
use dnsmon.Storage.{Statement, Database}
use dnsmon.Storage.Tables.{View, text_of, keyed, Stored, Removed, Effect, IsSql}
use dnsmon.Storage.Rows.{select_data}

abbrev change : Text → Text → Option Text → View → View
change t id d v t' k = if text_eq t t' && text_eq id k then d else v t' k

abbrev stored : Text → Option (Text × Text) → View → View
stored t none v = v
stored t (some r) v = change t r.0 (some r.1) v

abbrev count_one : Option Text → ℕ
count_one none = 0
count_one (some blob) = 1

abbrev removed : Bool → Text → Option Text → View → ℕ × View
removed true t (some id) v = (count_one (v t id), change t id none v)
removed _ t _ v = (0, v)

abbrev pub run : Statement → View → ℕ × View
unfolding keyed bytes member text_eq
run (Statement.insert t row) v = (1, v)
run (Statement.replace t row) v = (1, stored t (keyed row) v)
run (Statement.upsert t row columns) v =
    (1, stored t (if member (bytes "data") columns then keyed row else none) v)
run (Statement.delete_equal t c value) v =
    removed (text_eq c (bytes "id")) t (text_of (some value)) v
run (Statement.delete_less t c value) v = (0, v)
run (Statement.delete_days t c value) v = (0, v)

abbrev pub database : {T : Type 0} → Database View T
database = record {
  exec = λ s v. (ok (ok (run s v).0), (run s v).1);
  query_row = λ q v. elim q.equal [
    | none ↦ (ok none, v)
    | some e ↦ elim (text_of (some e.1)) [ none ↦ (ok none, v) | some id ↦ (ok (v q.table id), v) ]
  ];
  query = λ q v. (ok (record { scanned = []; error = none }), v);
  query_tokens = λ q v. (ok (record { scanned = []; error = none }), v);
  ping = λ v. (ok tt, v);
  close = λ v. (ok tt, v);
  run_script = λ script v. (ok tt, v);
}

one≢zero : ¬ (◌≡◌ {A = ℕ} 1 0)
one≢zero e = omega (arith, e)

none≢some : {A : Type 0} → (a : A) → ¬ (some a ≡ none)
none≢some a e = cc

stored-Stored : (t : Text) (r : Option (Text × Text)) (v : View) → Stored t r v (stored t r v)
stored-Stored t none v = λ t' k. inr refl
stored-Stored t (some r) v = λ t' k. refl

count_one_iff : (o : Option Text) → (count_one o ≡ 0 → o ≡ none) × (o ≡ none → count_one o ≡ 0)
count_one_iff none = (λ e. refl, λ e. refl)
count_one_iff (some blob) = (λ e. absurd (one≢zero e), λ e. absurd (none≢some blob e))

removed-Removed :
    (b : Bool) (t : Text) (id : Option Text) (v : View)
    → let (n, v') = removed b t id v in Removed b t id n v v'
removed-Removed true t (some id) v = (λ t' k. refl, count_one_iff (v t id))
removed-Removed true t none v = λ t' k. inr refl
removed-Removed false t id v = λ t' k. inr refl

run-Effect : (s : Statement) (v : View) → let (n, v') = run s v in Effect s n v v'
unfolding run Effect keyed
run-Effect (Statement.insert t row) v = λ t' k. inr refl
run-Effect (Statement.replace t row) v = stored-Stored t (keyed row) v
run-Effect (Statement.upsert t row columns) v =
    stored-Stored t (if member (bytes "data") columns then keyed row else none) v
run-Effect (Statement.delete_equal t c value) v =
    removed-Removed (text_eq c (bytes "id")) t (text_of (some value)) v
run-Effect (Statement.delete_less t c value) v = λ t' k. inr refl
run-Effect (Statement.delete_days t c value) v = λ t' k. inr refl

pub database-IsSql : {T : Type 0} → IsSql {T = T} database (λ v. v)
unfolding select_data
database-IsSql = record { exec_runs = run-Effect; query_row_finds = λ t id v. (refl, λ t' k. refl) }
