-- ===== src/Storage/Sqlite.antt =====
-- internal/storage/sqlite: the store over SQLite, where a time is a string in RFC 3339.
pub mod Columns
use dnsmon.Base.{ℕ, ℤ, pos, List, [], ◌∷◌, Bool, Text, bytes}
use dnsmon.Dns.{Check}
use dnsmon.Settings.{Settings, ApiToken, Schedule, Monitor, MonitorEvent}
use dnsmon.World as World
use dnsmon.World.{Result, ok, err, wrap, Action, ◌>>=◌, pure, Machine}
use dnsmon.Storage.{Value, Statement, Database, Migrations, Json, TimeFormat}
use dnsmon.Storage.Rows.{
  read_row, read_rows, read_checks, done, deleted, deleted_check, select_data, select_newest,
  select_page, select_events, event_limit, migration_names, write_data, delete_events,
  run_migrations,
}
use dnsmon.Storage.Sqlite.Columns.{
  check_row, document_row, updated_columns, token_row, event_row, token_columns, read_settings,
  tokens_of,
}

module _ {W : Type 0} (db : Database W Text) (json : Json) (format : TimeFormat)
    (machine : Machine W) where
  -- `migrate`
  unfoldable pub migrate_entries :
      Migrations → Result (List (Text × Bool)) → Action W (Result (Unit {0}))
  unfolding run_migrations migration_names bytes
  migrate_entries files (err e) = pure (err (wrap (bytes "reading migrations dir") e))
  migrate_entries files (ok entries) = run_migrations db files (migration_names entries)

  -- What `New` does behind a step: on an error it closes the database.
  unfoldable pub close_on_error :
      Text → Result (Unit {0}) → Action W (Result (Unit {0})) → Action W (Result (Unit {0}))
  close_on_error message (ok u) rest = rest
  close_on_error message (err e) rest = do closed ← db.close; pure (err (wrap message e))

  -- `New`, where `sql.Open` has given the database.
  unfoldable pub new : Migrations → Action W (Result (Unit {0}))
  unfolding close_on_error migrate_entries bytes
  new files = do
    pinged ← db.ping
    close_on_error (bytes "pinging sqlite db") pinged (do
      migrated ← migrate_entries files files.read_dir
      close_on_error (bytes "running migrations") migrated (pure (ok tt)))

  -- `SaveCheck`
  unfoldable pub save_check : Check → Action W (Result (Unit {0}))
  unfolding write_data check_row bytes
  save_check check =
      write_data db (bytes "check") (bytes "inserting check")
        (λ blob. Statement.replace (bytes "checks") (check_row format.rfc3339 check blob))
        (json.check.marshal check)

  -- `GetCheck`
  unfoldable pub get_check : Text → Action W (Result Check)
  unfolding read_row select_data bytes
  get_check id = do
    r ← db.query_row (select_data (bytes "checks") (Value.text id))
    pure (read_row (bytes "check") json.check r)

  -- `ListChecks`
  unfoldable pub list_checks : ℤ → ℤ → Action W (Result (List Check))
  unfolding read_checks select_page
  list_checks limit offset = do
    r ← db.query (select_page limit offset)
    pure (read_checks json.check r)

  -- `DeleteCheck`
  unfoldable pub delete_check : Text → Action W (Result (Unit {0}))
  unfolding deleted_check bytes
  delete_check id = do
    r ← db.exec (Statement.delete_equal (bytes "checks") (bytes "id") (Value.text id))
    pure (deleted_check r)

  -- `PurgeOldChecks`
  unfoldable pub purge_old_checks : ℤ → Action W (Result (Unit {0}))
  unfolding done bytes
  purge_old_checks days = do
    now ← machine.now
    r ← db.exec (
        Statement.delete_less (bytes "checks") (bytes "created_at")
          (Value.text (format.rfc3339_before now days)))
    pure (done (bytes "purging old checks") r)

  -- `GetSettings`
  unfoldable pub get_settings : Action W (Result Settings)
  unfolding read_settings select_data bytes
  get_settings = do
    r ← db.query_row (select_data (bytes "settings") (Value.int (pos 1)))
    pure (read_settings json r)

  -- `SaveSettings`
  unfoldable pub save_settings : Settings → Action W (Result (Unit {0}))
  unfolding write_data bytes
  save_settings s =
      write_data db (bytes "settings") (bytes "saving settings")
        (λ blob.
          Statement.replace (bytes "settings")
            ((bytes "id", Value.int (pos 1)) ∷ (bytes "data", Value.text blob) ∷ []))
        (json.settings.marshal s)

  -- `ListAPITokens`
  unfoldable pub list_api_tokens : Action W (Result (List ApiToken))
  unfolding tokens_of select_newest token_columns bytes
  list_api_tokens = do
    r ← db.query_tokens (select_newest (bytes "api_tokens") token_columns)
    pure (tokens_of format.parse_rfc3339 r)

  -- `CreateAPIToken`
  unfoldable pub create_api_token : ApiToken → Action W (Result (Unit {0}))
  unfolding done token_row bytes
  create_api_token t = do
    r ← db.exec (Statement.insert (bytes "api_tokens") (token_row format.rfc3339 t))
    pure (done (bytes "creating api token") r)

  -- `DeleteAPIToken`
  unfoldable pub delete_api_token : Text → Action W (Result (Unit {0}))
  unfolding deleted bytes
  delete_api_token id = do
    r ← db.exec (Statement.delete_equal (bytes "api_tokens") (bytes "id") (Value.text id))
    pure (deleted (bytes "deleting api token") r)

  -- `ListSchedules`
  unfoldable pub list_schedules : Action W (Result (List Schedule))
  unfolding read_rows select_newest bytes
  list_schedules = do
    r ← db.query (select_newest (bytes "schedules") (bytes "data" ∷ []))
    pure (read_rows (bytes "schedule") json.schedule (bytes "querying schedules") r)

  -- `SaveSchedule`
  unfoldable pub save_schedule : Schedule → Action W (Result (Unit {0}))
  unfolding write_data document_row updated_columns bytes
  save_schedule sc =
      write_data db (bytes "schedule") (bytes "saving schedule")
        (λ blob.
          Statement.upsert (bytes "schedules")
            (document_row format.rfc3339 sc.id blob sc.created_at sc.updated_at) updated_columns)
        (json.schedule.marshal sc)

  -- `DeleteSchedule`
  unfoldable pub delete_schedule : Text → Action W (Result (Unit {0}))
  unfolding deleted bytes
  delete_schedule id = do
    r ← db.exec (Statement.delete_equal (bytes "schedules") (bytes "id") (Value.text id))
    pure (deleted (bytes "deleting schedule") r)

  -- `ListMonitors`
  unfoldable pub list_monitors : Action W (Result (List Monitor))
  unfolding read_rows select_newest bytes
  list_monitors = do
    r ← db.query (select_newest (bytes "monitors") (bytes "data" ∷ []))
    pure (read_rows (bytes "monitor") json.monitor (bytes "querying monitors") r)

  -- `GetMonitor`
  unfoldable pub get_monitor : Text → Action W (Result Monitor)
  unfolding read_row select_data bytes
  get_monitor id = do
    r ← db.query_row (select_data (bytes "monitors") (Value.text id))
    pure (read_row (bytes "monitor") json.monitor r)

  -- `SaveMonitor`
  unfoldable pub save_monitor : Monitor → Action W (Result (Unit {0}))
  unfolding write_data document_row updated_columns bytes
  save_monitor m =
      write_data db (bytes "monitor") (bytes "saving monitor")
        (λ blob.
          Statement.upsert (bytes "monitors")
            (document_row format.rfc3339 m.id blob m.created_at m.updated_at) updated_columns)
        (json.monitor.marshal m)

  -- `DeleteMonitor`
  unfoldable pub delete_monitor : Text → Action W (Result (Unit {0}))
  unfolding deleted delete_events bytes
  delete_monitor id = do
    r ← db.exec (Statement.delete_equal (bytes "monitors") (bytes "id") (Value.text id))
    delete_events db id (deleted (bytes "deleting monitor") r)

  -- `ListMonitorEvents`
  unfoldable pub list_monitor_events : Text → ℤ → Action W (Result (List MonitorEvent))
  unfolding read_rows select_events event_limit bytes
  list_monitor_events monitor_id limit = do
    r ← db.query (select_events monitor_id (event_limit limit))
    pure (read_rows (bytes "monitor event") json.monitor_event (bytes "querying monitor events") r)

  -- `AppendMonitorEvent`
  unfoldable pub append_monitor_event : MonitorEvent → Action W (Result (Unit {0}))
  unfolding write_data event_row bytes
  append_monitor_event e =
      write_data db (bytes "monitor event") (bytes "appending monitor event")
        (λ blob. Statement.insert (bytes "monitor_events") (event_row format.rfc3339 e blob))
        (json.monitor_event.marshal e)

  -- The store as the `storage.Storage` that the rest of the program is given.
  unfoldable pub store : World.Storage W
  unfolding save_check get_check list_checks delete_check purge_old_checks get_settings
      save_settings list_api_tokens create_api_token delete_api_token list_schedules save_schedule
      delete_schedule list_monitors get_monitor save_monitor delete_monitor list_monitor_events
      append_monitor_event
  store = record {
    save_check = save_check;
    get_check = get_check;
    list_checks = λ limit offset. list_checks (pos limit) (pos offset);
    delete_check = delete_check;
    purge_old_checks = λ days. purge_old_checks (pos days);
    get_settings = get_settings;
    save_settings = save_settings;
    list_api_tokens = list_api_tokens;
    create_api_token = create_api_token;
    delete_api_token = delete_api_token;
    list_schedules = list_schedules;
    save_schedule = save_schedule;
    delete_schedule = delete_schedule;
    list_monitors = list_monitors;
    get_monitor = get_monitor;
    save_monitor = save_monitor;
    delete_monitor = delete_monitor;
    list_monitor_events = λ id limit. list_monitor_events id (pos limit);
    append_monitor_event = append_monitor_event;
  }
