-- ===== src/Storage.antt =====
-- internal/storage: what its two databases share. The SQL statements that the code sends are values
-- here; the database, the JSON encoding and the formats of times are arguments.
pub mod Rows
pub mod Sqlite
pub mod Postgres
pub mod Noop
pub mod Documents
pub mod Tables
pub mod Views
pub mod Steps
pub mod Refinement
use dnsmon.Base.{ℕ, ℤ, List, Option, Text, Bool}
use dnsmon.Dns.{Check}
use dnsmon.Settings.{Settings, Schedule, Monitor, MonitorEvent}
use dnsmon.World.{Result, Error}

-- An argument of a statement: a string or bytes, a `time.Time`, an `int`.
pub data Value : Type 0 where
  text : Text → Value
  time : ℕ → Value
  int : ℤ → Value

-- `INSERT INTO t`; `INSERT OR REPLACE INTO t`; `INSERT INTO t … ON CONFLICT (id) DO UPDATE SET` the
-- listed columns to those of the row; `DELETE FROM t WHERE c = v`; `… WHERE c < v`; and
-- `… WHERE c < NOW() - (n || ' days')::INTERVAL`. A row is the list of its columns.
pub data Statement : Type 0 where
  insert : Text → List (Text × Value) → Statement
  replace : Text → List (Text × Value) → Statement
  upsert : Text → List (Text × Value) → List Text → Statement
  delete_equal : Text → Text → Value → Statement
  delete_less : Text → Text → Value → Statement
  delete_days : Text → Text → Value → Statement

-- `SELECT columns FROM t WHERE c = v ORDER BY o DESC LIMIT n OFFSET m`, each clause where it is given.
pub record Select : Type 0 where
  pub columns : List Text
  pub table : Text
  pub equal : Option (Text × Value)
  pub order : Option Text
  pub limit : Option Value
  pub offset : Option Value

-- The rows of a query as `Scan` hands them over, and `rows.Err()`.
pub record RowSet (A : Type 0) : Type 0 where
  pub scanned : List (Result A)
  pub error : Option Error

-- A row of the tokens; `T` is what `Scan` gives for a time.
pub record TokenRow (T : Type 0) : Type 0 where
  pub id : Text
  pub name : Text
  pub hash : Text
  pub prefix : Text
  pub created : T
  pub last_used : Option T

-- `*sql.DB`. `exec` has a result whose `RowsAffected` may fail; `query_row` scans the data column of a
-- row, and is `none` for `sql.ErrNoRows`.
pub record Database (W T : Type 0) : Type 0 where
  pub exec : Statement → W → Result (Result ℕ) × W
  pub query_row : Select → W → Result (Option Text) × W
  pub query : Select → W → Result (RowSet Text) × W
  pub query_tokens : Select → W → Result (RowSet (TokenRow T)) × W
  pub ping : W → Result (Unit {0}) × W
  pub close : W → Result (Unit {0}) × W
  pub run_script : Text → W → Result (Unit {0}) × W

-- The embedded migrations: the entries of the directory, with whether each is one itself, and a file.
pub record Migrations : Type 0 where
  pub read_dir : Result (List (Text × Bool))
  pub read_file : Text → Result Text

-- `json.Marshal` and `json.Unmarshal`
pub record Codec (A : Type 0) : Type 0 where
  pub marshal : A → Result Text
  pub unmarshal : Text → Result A

pub record Json : Type 0 where
  pub check : Codec Check
  pub settings : Codec Settings
  pub schedule : Codec Schedule
  pub monitor : Codec Monitor
  pub monitor_event : Codec MonitorEvent

-- `t.UTC().Format(time.RFC3339)` and `time.Parse(time.RFC3339, s)`; and the former of
-- `now.UTC().AddDate(0, 0, -days)`.
pub record TimeFormat : Type 0 where
  pub rfc3339 : ℕ → Text
  pub parse_rfc3339 : Text → Option ℕ
  pub rfc3339_before : ℕ → ℤ → Text
