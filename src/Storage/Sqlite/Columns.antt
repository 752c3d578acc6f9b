-- ===== src/Storage/Sqlite/Columns.antt =====
-- internal/storage/sqlite: the columns that are written and what is made of the rows that come back.
use dnsmon.Base.{ℕ, List, [], ◌∷◌, Option, none, some, Text, bytes}
use dnsmon.Dns.{Check}
use dnsmon.Settings.{Settings, ApiToken, MonitorEvent, default_settings}
use dnsmon.World.{Result, ok, err, wrap}
use dnsmon.Storage.{Value, RowSet, TokenRow, Json}
use dnsmon.Storage.Rows.{scanning, read_row, push_row, rows_error}

unfoldable pub check_row : (ℕ → Text) → Check → Text → List (Text × Value)
unfolding bytes
check_row rfc3339 check blob =
    (bytes "id", Value.text check.id)
    ∷ (bytes "name", Value.text check.name)
    ∷ (bytes "type", Value.text check.type)
    ∷ (bytes "created_at", Value.text (rfc3339 check.created_at))
    ∷ (bytes "data", Value.text blob)
    ∷ []

-- The row of a schedule or a monitor.
unfoldable pub document_row : (ℕ → Text) → Text → Text → ℕ → ℕ → List (Text × Value)
unfolding bytes
document_row rfc3339 id blob created updated =
    (bytes "id", Value.text id)
    ∷ (bytes "data", Value.text blob)
    ∷ (bytes "created_at", Value.text (rfc3339 created))
    ∷ (bytes "updated_at", Value.text (rfc3339 updated))
    ∷ []

unfoldable pub updated_columns : List Text
unfolding bytes
updated_columns = bytes "data" ∷ bytes "updated_at" ∷ []

unfoldable pub token_row : (ℕ → Text) → ApiToken → List (Text × Value)
unfolding bytes
token_row rfc3339 t =
    (bytes "id", Value.text t.id)
    ∷ (bytes "name", Value.text t.name)
    ∷ (bytes "hash", Value.text t.hash)
    ∷ (bytes "prefix", Value.text t.prefix)
    ∷ (bytes "created_at", Value.text (rfc3339 t.created_at))
    ∷ []

unfoldable pub event_row : (ℕ → Text) → MonitorEvent → Text → List (Text × Value)
unfolding bytes
event_row rfc3339 e blob =
    (bytes "id", Value.text e.id)
    ∷ (bytes "monitor_id", Value.text e.monitor_id)
    ∷ (bytes "ts", Value.text (rfc3339 e.timestamp))
    ∷ (bytes "data", Value.text blob)
    ∷ []

unfoldable pub token_columns : List Text
unfolding bytes
token_columns =
    bytes "id"
    ∷ bytes "name"
    ∷ bytes "hash"
    ∷ bytes "prefix"
    ∷ bytes "created_at"
    ∷ bytes "last_used_at"
    ∷ []

-- `GetSettings` behind its query: the defaults where there is no row.
unfoldable pub read_settings : Json → Result (Option Text) → Result Settings
unfolding read_row bytes default_settings
read_settings json (ok none) = ok default_settings
read_settings json r = read_row (bytes "settings") json.settings r

-- The time of a token that does not parse is the zero time, here 0.
time_or_zero : Option ℕ → ℕ
time_or_zero none = 0
time_or_zero (some t) = t

parse_used : (Text → Option ℕ) → Option Text → Option ℕ
parse_used parse none = none
parse_used parse (some s) = parse s

unfoldable pub token_of : (Text → Option ℕ) → TokenRow Text → ApiToken
unfolding time_or_zero parse_used
token_of parse row = record {
  id = row.id;
  name = row.name;
  hash = row.hash;
  prefix = row.prefix;
  created_at = time_or_zero (parse row.created);
  last_used_at = parse_used parse row.last_used;
}

unfoldable pub read_tokens :
    (Text → Option ℕ) → List (Result (TokenRow Text)) → Result (List ApiToken)
unfolding token_of push_row bytes scanning
read_tokens parse [] = ok []
read_tokens parse (err e ∷ rows) = err (wrap (scanning (bytes "api token")) e)
read_tokens parse (ok row ∷ rows) = push_row (ok (token_of parse row)) (read_tokens parse rows)

unfoldable pub tokens_of :
    (Text → Option ℕ) → Result (RowSet (TokenRow Text)) → Result (List ApiToken)
unfolding read_tokens rows_error bytes
tokens_of parse (err e) = err (wrap (bytes "querying api tokens") e)
tokens_of parse (ok rows) = rows_error rows.error (read_tokens parse rows.scanned)
