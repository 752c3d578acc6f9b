-- ===== src/Storage/Refinement/Postgres.antt =====
-- The checks and the monitors of the store over PostgreSQL.
use dnsmon.Base.{ℕ, List, bytes, text_eq, lookup, member}
use dnsmon.Dns.{Check}
use dnsmon.Settings.{Monitor}
use dnsmon.Storage.{Statement, Database, Json}
use dnsmon.Storage.Documents.{Operation}
use dnsmon.Storage.Tables.{View, IsSql, IsCodec, Effect, keyed}
use dnsmon.Storage.Views.{IsReadable}
use dnsmon.Storage.Steps.{delete_id}
use dnsmon.Storage.Refinement.{
  checks_of, monitors_of, check_id, monitor_id, Refines, document_store-Refines,
  remove_check-IsRemoval, remove_monitor-IsRemoval,
}
use dnsmon.Storage.Postgres as Postgres
use dnsmon.Storage.Postgres.Columns.{check_row, check_columns, document_row, updated_columns}

module _ {W : Type 0} (db : Database W ℕ) (json : Json) (view : W → View) (sql : IsSql db view)
    (checks : IsCodec json.check) (monitors : IsCodec json.monitor) where
  checks-Refines :
      (ops : List (Operation Check)) (w : W)
      → IsReadable json.check (bytes "checks") (view w)
      → Refines (checks_of (Postgres.store db json)) check_id json.check (bytes "checks") view w ops
  unfolding Postgres.store Postgres.save_check Postgres.get_check Postgres.delete_check check_row
      check_columns Effect keyed lookup member bytes text_eq delete_id
  checks-Refines ops w i =
      document_store-Refines db view sql json.check checks check_id (bytes "checks") (bytes "check")
        (bytes "inserting check")
        (λ c blob. Statement.upsert (bytes "checks") (check_row c blob) check_columns)
        (λ c blob n v v' h. h) _ (remove_check-IsRemoval db view sql json.check checks) ops w i

  monitors-Refines :
      (ops : List (Operation Monitor)) (w : W)
      → IsReadable json.monitor (bytes "monitors") (view w)
      → Refines
          (monitors_of (Postgres.store db json))
          monitor_id
          json.monitor
          (bytes "monitors")
          view
          w
          ops
  unfolding Postgres.store Postgres.save_monitor Postgres.get_monitor Postgres.delete_monitor
      document_row updated_columns Effect keyed lookup member bytes text_eq delete_id
  monitors-Refines ops w i =
      document_store-Refines db view sql json.monitor monitors monitor_id (bytes "monitors")
        (bytes "monitor") (bytes "saving monitor")
        (λ m blob.
          Statement.upsert (bytes "monitors") (document_row m.id blob m.created_at m.updated_at)
            updated_columns)
        (λ m blob n v v' h. h) _ (remove_monitor-IsRemoval db view sql json.monitor monitors) ops w
        i

  -- Let the database keep to SQL and the encoding of JSON be invertible, and the data of the tables
  -- of checks and monitors decode. Then each sequence of saves, reads and deletes of checks in the
  -- store over PostgreSQL has outcomes that a map from ids to checks allows, and so for monitors: a
  -- saved document replaces the one of its id, a read returns it, `ErrNotFound` comes only where
  -- there is none, and an operation with an error changes nothing.
  pub postgres-Refines :
      (check_ops : List (Operation Check)) (monitor_ops : List (Operation Monitor)) (w : W)
      → IsReadable json.check (bytes "checks") (view w)
      → IsReadable json.monitor (bytes "monitors") (view w)
      → let store = Postgres.store db json in
        Refines (checks_of store) check_id json.check (bytes "checks") view w check_ops
        × Refines (monitors_of store) monitor_id json.monitor (bytes "monitors") view w monitor_ops
  postgres-Refines check_ops monitor_ops w c m =
      (checks-Refines check_ops w c, monitors-Refines monitor_ops w m)
