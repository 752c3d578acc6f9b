-- ===== src/Storage/Postgres/Columns.antt =====
-- internal/storage/postgres: the columns that are written and what is made of the rows that come back.
use dnsmon.Base.{ℕ, List, [], ◌∷◌, Option, none, Text, bytes}
use dnsmon.Dns.{Check}
use dnsmon.Settings.{Settings, ApiToken, MonitorEvent, default_settings}
use dnsmon.World.{Result, ok, err, wrap}
use dnsmon.Storage.{Value, RowSet, TokenRow, Json}
use dnsmon.Storage.Rows.{scanning, read_row, push_row, rows_error}

unfoldable pub check_row : Check → Text → List (Text × Value)
unfolding bytes
check_row check blob =
    (bytes "id", Value.text check.id)
    ∷ (bytes "name", Value.text check.name)
    ∷ (bytes "type", Value.text check.type)
    ∷ (bytes "created_at", Value.time check.created_at)
    ∷ (bytes "data", Value.text blob)
    ∷ []

-- The columns that a conflict updates.
unfoldable pub check_columns : List Text
unfolding bytes
check_columns = bytes "name" ∷ bytes "type" ∷ bytes "created_at" ∷ bytes "data" ∷ []

-- The row of a schedule or a monitor.
unfoldable pub document_row : Text → Text → ℕ → ℕ → List (Text × Value)
unfolding bytes
document_row id blob created updated =
    (bytes "id", Value.text id)
    ∷ (bytes "data", Value.text blob)
    ∷ (bytes "created_at", Value.time created)
    ∷ (bytes "updated_at", Value.time updated)
    ∷ []

unfoldable pub updated_columns : List Text
unfolding bytes
updated_columns = bytes "data" ∷ bytes "updated_at" ∷ []

unfoldable pub token_row : ApiToken → List (Text × Value)
unfolding bytes
token_row t =
    (bytes "id", Value.text t.id)
    ∷ (bytes "name", Value.text t.name)
    ∷ (bytes "hash", Value.text t.hash)
    ∷ (bytes "prefix", Value.text t.prefix)
    ∷ (bytes "created_at", Value.time t.created_at)
    ∷ []

unfoldable pub event_row : MonitorEvent → Text → List (Text × Value)
unfolding bytes
event_row e blob =
    (bytes "id", Value.text e.id)
    ∷ (bytes "monitor_id", Value.text e.monitor_id)
    ∷ (bytes "ts", Value.time e.timestamp)
    ∷ (bytes "data", Value.text blob)
    ∷ []

unfoldable pub token_columns : List Text
unfolding bytes
token_columns =
    bytes "id"
    ∷ bytes "name"
    ∷ bytes "hash"
    ∷ bytes "prefix"
    ∷ bytes "created_at"
    ∷ bytes "last_used_at"
    ∷ []

-- `GetSettings` behind its query: the defaults where there is no row.
unfoldable pub read_settings : Json → Result (Option Text) → Result Settings
unfolding read_row bytes default_settings
read_settings json (ok none) = ok default_settings
read_settings json r = read_row (bytes "settings") json.settings r

unfoldable pub token_of : TokenRow ℕ → ApiToken
token_of row = record {
  id = row.id;
  name = row.name;
  hash = row.hash;
  prefix = row.prefix;
  created_at = row.created;
  last_used_at = row.last_used;
}

unfoldable pub read_tokens : List (Result (TokenRow ℕ)) → Result (List ApiToken)
unfolding token_of push_row bytes scanning
read_tokens [] = ok []
read_tokens (err e ∷ rows) = err (wrap (scanning (bytes "api token")) e)
read_tokens (ok row ∷ rows) = push_row (ok (token_of row)) (read_tokens rows)

unfoldable pub tokens_of : Result (RowSet (TokenRow ℕ)) → Result (List ApiToken)
unfolding read_tokens rows_error bytes
tokens_of (err e) = err (wrap (bytes "querying api tokens") e)
tokens_of (ok rows) = rows_error rows.error (read_tokens rows.scanned)
