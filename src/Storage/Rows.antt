-- ===== src/Storage/Rows.antt =====
-- internal/storage/sqlite and postgres: the parts that the operations of both have in common.
use dnsmon.Base.{
  ℕ, ℤ, pos, List, [], ◌∷◌, ◌++◌, map, Option, none, some, Bool, not, ◌&&◌, Text, bytes, has_suffix,
  sort_texts, keep, ◌==◌, if◌then◌else◌,
}
use dnsmon.Dns.{Check}
use dnsmon.World.{Result, ok, err, Error, not_found, wrap, Action, ◌>>=◌, pure}
use dnsmon.Storage.{Statement, Select, Value, RowSet, Codec, Database, Migrations}

-- `fmt.Errorf("message: %w", err)` on an error
unfoldable pub wrapped : {A : Type 0} → Text → Result A → Result A
wrapped message (ok a) = ok a
wrapped message (err e) = err (wrap message e)

unfoldable pub scanning : Text → Text
unfolding bytes
scanning kind = bytes "scanning " ++ kind ++ bytes " row"

marshaling : Text → Text
unfolding bytes
marshaling kind = bytes "marshaling " ++ kind

unfoldable pub unmarshaling : Text → Text
unfolding bytes
unmarshaling kind = bytes "unmarshaling " ++ kind

unfoldable pub push_row : {A : Type 0} → Result A → Result (List A) → Result (List A)
push_row (err e) rest = err e
push_row (ok a) (err e) = err e
push_row (ok a) (ok out) = ok (a ∷ out)

-- `return out, rows.Err()`
unfoldable pub rows_error : {A : Type 0} → Option Error → Result (List A) → Result (List A)
rows_error e (err f) = err f
rows_error none (ok out) = ok out
rows_error (some e) (ok out) = err e

module _ {A : Type 0} (kind : Text) (codec : Codec A) where
  -- A single row: the value that its data stand for, or `ErrNotFound`.
  unfoldable pub read_row : Result (Option Text) → Result A
  unfolding wrapped scanning unmarshaling
  read_row (err e) = err (wrap (scanning kind) e)
  read_row (ok none) = err not_found
  read_row (ok (some blob)) = wrapped (unmarshaling kind) (codec.unmarshal blob)

  -- The loop over the rows.
  read_scanned : List (Result Text) → Result (List A)
  unfolding push_row wrapped scanning unmarshaling
  read_scanned [] = ok []
  read_scanned (err e ∷ rows) = err (wrap (scanning kind) e)
  read_scanned (ok blob ∷ rows) =
      push_row (wrapped (unmarshaling kind) (codec.unmarshal blob)) (read_scanned rows)

  unfoldable pub read_rows : Text → Result (RowSet Text) → Result (List A)
  unfolding read_scanned rows_error
  read_rows querying (err e) = err (wrap querying e)
  read_rows querying (ok rows) = rows_error rows.error (read_scanned rows.scanned)

-- `ListChecks` behind its query, which names the error of `rows.Err()`.
check_rows_error : Option Error → Option Error
unfolding bytes
check_rows_error none = none
check_rows_error (some e) = some (wrap (bytes "iterating check rows") e)

unfoldable pub read_checks : Codec Check → Result (RowSet Text) → Result (List Check)
unfolding read_scanned rows_error check_rows_error bytes
read_checks codec (err e) = err (wrap (bytes "querying checks") e)
read_checks codec (ok rows) =
    rows_error (check_rows_error rows.error) (read_scanned (bytes "check") codec rows.scanned)

-- What an `ExecContext` whose result is not looked at returns.
unfoldable pub done : Text → Result (Result ℕ) → Result (Unit {0})
done message (err e) = err (wrap message e)
done message (ok n) = ok tt

-- `n, _ := res.RowsAffected()`
unfoldable pub affected : Result ℕ → ℕ
affected (err e) = 0
affected (ok n) = n

-- A delete by key, with `ErrNotFound` where no row is affected.
unfoldable pub deleted : Text → Result (Result ℕ) → Result (Unit {0})
unfolding affected
deleted message (err e) = err (wrap message e)
deleted message (ok n) = if affected n == 0 then err not_found else ok tt

-- The delete of a check, which reports an error of `RowsAffected`.
unfoldable pub deleted_check : Result (Result ℕ) → Result (Unit {0})
unfolding deleted bytes
deleted_check (err e) = err (wrap (bytes "deleting check") e)
deleted_check (ok (err e)) = err (wrap (bytes "checking rows affected") e)
deleted_check (ok (ok n)) = deleted (bytes "deleting check") (ok (ok n))

-- `sql.Select` of one column by the primary key, and of the data in the order of their creation.
unfoldable pub select_data : Text → Value → Select
unfolding bytes
select_data table id = record {
  columns = bytes "data" ∷ [];
  table = table;
  equal = some (bytes "id", id);
  order = none;
  limit = none;
  offset = none;
}

unfoldable pub select_newest : Text → List Text → Select
unfolding bytes
select_newest table columns = record {
  columns = columns;
  table = table;
  equal = none;
  order = some (bytes "created_at");
  limit = none;
  offset = none;
}

-- `ORDER BY created_at DESC LIMIT ? OFFSET ?`
unfoldable pub select_page : ℤ → ℤ → Select
unfolding bytes select_newest
select_page limit offset = record (select_newest (bytes "checks") (bytes "data" ∷ [])) {
  limit = some (Value.int limit);
  offset = some (Value.int offset);
}

unfoldable pub select_events : Text → ℤ → Select
unfolding bytes
select_events monitor_id limit = record {
  columns = bytes "data" ∷ [];
  table = bytes "monitor_events";
  equal = some (bytes "monitor_id", Value.text monitor_id);
  order = some (bytes "ts");
  limit = some (Value.int limit);
  offset = none;
}

-- `if limit <= 0 { limit = 100 }`
unfoldable pub event_limit : ℤ → ℤ
event_limit (pos n) = if n == 0 then pos 100 else pos n
event_limit _ = pos 100

-- The names of the migrations, in order.
unfoldable pub migration_names : List (Text × Bool) → List Text
unfolding sort_texts bytes keep
migration_names entries = sort_texts (
    map (λ (e : Text × Bool). e.0)
      (keep (λ (e : Text × Bool). not e.1 && has_suffix e.0 (bytes ".sql")) entries))

module _ {W T : Type 0} (db : Database W T) where
  -- Marshal, then write: `message` is for an error of the statement.
  unfoldable pub write_data :
      Text → Text → (Text → Statement) → Result Text → Action W (Result (Unit {0}))
  unfolding done marshaling
  write_data kind message statement (err e) = pure (err (wrap (marshaling kind) e))
  write_data kind message statement (ok blob) = do
    r ← db.exec (statement blob)
    pure (done message r)

  -- The second delete of `DeleteMonitor`, whose error is dropped.
  unfoldable pub delete_events : Text → Result (Unit {0}) → Action W (Result (Unit {0}))
  unfolding bytes
  delete_events id (err e) = pure (err e)
  delete_events id (ok u) = do
    dropped ←
        db.exec
          (Statement.delete_equal (bytes "monitor_events") (bytes "monitor_id") (Value.text id))
    pure (ok tt)

  after_script :
      Text → Result (Unit {0}) → Action W (Result (Unit {0})) → Action W (Result (Unit {0}))
  unfolding bytes
  after_script name (err e) rest = pure (err (wrap (bytes "executing migration " ++ name) e))
  after_script name (ok u) rest = rest

  -- One migration, with those behind it.
  run_migration : Text → Result Text → Action W (Result (Unit {0})) → Action W (Result (Unit {0}))
  unfolding after_script bytes
  run_migration name (err e) rest = pure (err (wrap (bytes "reading migration " ++ name) e))
  run_migration name (ok script) rest = do r ← db.run_script script; after_script name r rest

  unfoldable pub run_migrations : Migrations → List Text → Action W (Result (Unit {0}))
  unfolding run_migration bytes
  run_migrations files [] = pure (ok tt)
  run_migrations files (name ∷ names) =
      run_migration name (files.read_file (bytes "migrations/" ++ name))
        (run_migrations files names)
