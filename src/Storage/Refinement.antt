-- ===== src/Storage/Refinement.antt =====
-- A table of documents whose operations are the statements of both stores keeps to the map of
-- Storage.Documents; the children apply this to the checks and the monitors.
pub mod Sqlite
pub mod Postgres
use dnsmon.Base.{ℕ, refl, List, some, Text, bytes, text_eq}
use dnsmon.Dns.{Check}
use dnsmon.Settings.{Monitor}
use dnsmon.World as World
use dnsmon.World.{Result, Action, ◌>>=◌, pure}
use dnsmon.Storage.{Value, Statement, Database, Codec}
use dnsmon.Storage.Rows.{write_data, read_row, select_data, delete_events, deleted, deleted_check}
use dnsmon.Storage.Documents.{
  DocumentStore, Operation, written, perform, perform_all, perform_all-Replays, Replays,
}
use dnsmon.Storage.Tables.{View, Changed, IsSql, IsCodec, Effect}
use dnsmon.Storage.Views.{documents, IsReadable}
use dnsmon.Storage.Steps.{
  Kept, write_data-Kept, get-Kept, delete_id, deleted-Kept, deleted_check-Kept, delete_events-Kept,
}

-- The operations of a store on the checks, and on the monitors.
abbrev pub checks_of : {W : Type 0} → World.Storage W → DocumentStore W Check
checks_of s = record { save = s.save_check; get = s.get_check; delete = s.delete_check }

abbrev pub monitors_of : {W : Type 0} → World.Storage W → DocumentStore W Monitor
monitors_of s = record { save = s.save_monitor; get = s.get_monitor; delete = s.delete_monitor }

-- The sequence of operations has outcomes that the map of the documents allows, which ends as the
-- documents that are in the table then.
abbrev pub Refines :
    {W A : Type 0}
    → DocumentStore W A
    → (A → Text)
    → Codec A
    → Text
    → (W → View)
    → W
    → List (Operation A)
    → Type 0
Refines store id_of codec t view w ops =
    let (os, w') = perform_all store ops w in
    Replays id_of (documents codec t (view w)) ops os (documents codec t (view w'))

abbrev pub check_id : Check → Text
check_id c = c.id

abbrev pub monitor_id : Monitor → Text
monitor_id m = m.id

module _ {W T A : Type 0} (db : Database W T) (view : W → View) (sql : IsSql db view)
    (codec : Codec A) (law : IsCodec codec) (id_of : A → Text) (t : Text) where
  -- What it takes to delete a document.
  abbrev IsRemoval : (Text → Action W (Result (Unit {0}))) → Type 0
  IsRemoval remove =
      (id : Text) (w : W)
      → IsReadable codec t (view w)
      → let (r, w') = remove id w in
        Kept db view sql codec law id_of t (Operation.delete id) (written r) (view w) (view w')

  module _ (kind message : Text) (s : A → Text → Statement)
      (changes : (a : A) (blob : Text) (n : ℕ) (v v' : View)
        → Effect (s a blob) n v v'
        → Changed t (id_of a) (some blob) v v')
      (remove : Text → Action W (Result (Unit {0}))) (removal : IsRemoval remove) where
    abbrev document_store : DocumentStore W A
    document_store = record {
      save = λ a. write_data db kind message (s a) (codec.marshal a);
      get = λ id. do
        r ← db.query_row (select_data t (Value.text id))
        pure (read_row kind codec r);
      delete = remove;
    }

    perform-Kept :
        (op : Operation A) (w : W)
        → IsReadable codec t (view w)
        → let (o, w') = perform document_store op w in
          Kept db view sql codec law id_of t op o (view w) (view w')
    perform-Kept (Operation.save a) w i =
        write_data-Kept db view sql codec law id_of t kind message a (s a) w (changes a) i
    perform-Kept (Operation.get id) w i = get-Kept db view sql codec law id_of t kind id w i
    perform-Kept (Operation.delete id) w i = removal id w i

    document_store-Refines :
        (ops : List (Operation A)) (w : W)
        → IsReadable codec t (view w)
        → Refines document_store id_of codec t view w ops
    document_store-Refines ops w i =
        (perform_all-Replays document_store id_of (λ w. documents codec t (view w))
          (λ w. IsReadable codec t (view w)) perform-Kept ops w i).0

module _ {W T : Type 0} (db : Database W T) (view : W → View) (sql : IsSql db view) where
  remove_check-IsRemoval :
      (codec : Codec Check) (law : IsCodec codec)
      → IsRemoval db view sql codec law check_id
          (bytes "checks")
          (λ id. do r ← db.exec (delete_id (bytes "checks") id); pure (deleted_check r))
  remove_check-IsRemoval codec law id w i =
      let (r, w') = db.exec (delete_id (bytes "checks") id) w in
      deleted_check-Kept db view sql codec law check_id (bytes "checks") id r (view w) (view w')
        (sql.exec_runs (delete_id (bytes "checks") id) w) i

  remove_monitor-IsRemoval :
      (codec : Codec Monitor) (law : IsCodec codec)
      → IsRemoval db view sql codec law monitor_id (bytes "monitors") (λ id. do
        r ← db.exec (delete_id (bytes "monitors") id)
        delete_events db id (deleted (bytes "deleting monitor") r))
  unfolding bytes text_eq
  remove_monitor-IsRemoval codec law id w i =
      let (r, w') = db.exec (delete_id (bytes "monitors") id) w in
      delete_events-Kept db view sql codec law monitor_id (bytes "monitors") (Operation.delete id)
        id (deleted (bytes "deleting monitor") r) (view w) w' refl
        (deleted-Kept db view sql codec law monitor_id (bytes "monitors") (bytes "deleting monitor")
          id r (view w) (view w') (sql.exec_runs (delete_id (bytes "monitors") id) w) i)
