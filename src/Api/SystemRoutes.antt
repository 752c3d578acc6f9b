-- ===== src/Api/SystemRoutes.antt =====
-- internal/api/v1/export.go, health.go and recordtypes.go. The renderings of a check are arguments.
use dnsmon.Base.{
  ℕ, List, [], ◌∷◌, ◌++◌, map, none, some, Text, bytes, is_empty, text_eq, lookup, sort_texts,
  if◌then◌else◌,
}
use dnsmon.Dns as Dns
use dnsmon.World.{Result, ok, err, Action, ◌>>=◌, pure, Storage}
use dnsmon.Api.{Reply, refusal, value, invalid_input, internal_error, missing_or}

-- A file: its type and its name.
pub record Download : Type 0 where
  content_type : Text
  filename : Text

-- What the renderings write to the response, and whether they fail; an error then goes behind what
-- has been written.
pub record Exporters (W : Type 0) : Type 0 where
  pub json : Dns.Check → W → Unit {0} × W
  pub csv : Dns.Check → W → Result (Unit {0}) × W
  png : Dns.Check → W → Result (Unit {0}) × W
  svg : Dns.Check → W → Result (Unit {0}) × W
  pdf : Dns.Check → W → Result (Unit {0}) × W

download : Text → Text → Dns.Check → Download
unfolding bytes
download content_type format check = record {
  content_type = content_type;
  filename = bytes "dnsmon-" ++ check.name ++ bytes "-" ++ check.type ++ bytes "." ++ format;
}

rendered : Text → Download → Result (Unit {0}) → Reply Download
rendered broken file (ok u) = value 200 file
rendered broken file (err e) = refusal 500 internal_error broken

or_json : Text → Text
unfolding bytes
or_json format = if is_empty format then bytes "json" else format

module _ {W : Type 0} (store : Storage W) (exporters : Exporters W) where
  export_with :
      Text
      → Text
      → Text
      → (Dns.Check → Action W (Result (Unit {0})))
      → Dns.Check
      → Action W (Reply Download)
  unfolding rendered download
  export_with content_type format broken render check = do
    r ← render check
    pure (rendered broken (download content_type format check) r)

  export_as : Text → Dns.Check → Action W (Reply Download)
  unfolding export_with download bytes text_eq
  export_as format check =
      if text_eq format (bytes "json")
      then (do
        written ← exporters.json check
        pure (value 200 (download (bytes "application/json") format check)))
      else if text_eq format (bytes "csv")
      then export_with (bytes "text/csv") format (bytes "Failed to generate CSV.") exporters.csv
          check
      else if text_eq format (bytes "png")
      then export_with (bytes "image/png") format (bytes "Failed to generate PNG.") exporters.png
          check
      else if text_eq format (bytes "svg")
      then export_with (bytes "image/svg+xml") format (bytes "Failed to generate SVG.")
          exporters.svg check
      else if text_eq format (bytes "pdf")
      then export_with (bytes "application/pdf") format (bytes "Failed to generate PDF.")
          exporters.pdf check
      else pure (
          refusal 400 invalid_input
            (bytes "Unsupported format: " ++ format ++ bytes ". Use json, csv, png, svg, or pdf."))

  export_found : Text → Result Dns.Check → Action W (Reply Download)
  unfolding export_as missing_or bytes
  export_found format (err e) =
      pure (missing_or (bytes "Check not found.") (bytes "Failed to retrieve check.") e)
  export_found format (ok check) = export_as format check

  -- `ExportCheck`
  unfoldable pub export_check : Text → Text → Action W (Reply Download)
  unfolding export_found or_json
  export_check id format = do r ← store.get_check id; export_found (or_json format) r

  ready : {A : Type 0} → Result A → ℕ × List (Text × Text)
  unfolding bytes
  ready (ok checks) = (200, (bytes "status", bytes "ok") ∷ [])
  ready (err e) = (
    503,
    (bytes "status", bytes "unavailable")
        ∷ (bytes "error", bytes "storage backend unavailable")
        ∷ [],
  )

  -- `Readyz`: the status and the fields of the reply.
  unfoldable pub readyz : Action W (ℕ × List (Text × Text))
  unfolding ready
  readyz = do r ← store.list_checks 1 0; pure (ready r)

pub record RecordTypeInfo : Type 0 where
  pub name : Text
  description : Text

type_info : List (Text × Text) → Text → RecordTypeInfo
unfolding lookup
type_info descriptions name = record {
  name = name;
  description = elim (lookup name descriptions) [ none ↦ [] | some d ↦ d ];
}

-- `buildRecordTypes`, over the names and the descriptions of internal/dnsclient/recordtypes.go.
unfoldable build_record_types : List Text → List (Text × Text) → List RecordTypeInfo
unfolding sort_texts type_info
build_record_types names descriptions = map (type_info descriptions) (sort_texts names)
