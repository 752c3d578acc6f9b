-- ===== src/Export.antt =====
-- internal/export/csv.go. The writer of `encoding/csv` and the format of times are arguments.
pub mod Svg
use dnsmon.Base.{ℕ, List, [], ◌∷◌, map, Text, bytes, join, decimal}
use dnsmon.Dns.{Answer, ResolverResult, Check, Status}
use dnsmon.World.{Result, ok, err, wrap, Action, ◌>>=◌, pure}

-- `cw.Write`, and `cw.Flush` with `cw.Error`.
pub record CsvWriter (W : Type 0) : Type 0 where
  pub write : List Text → W → Result (Unit {0}) × W
  flush : W → Result (Unit {0}) × W

-- The constants of the statuses.
status_text : Status → Text
unfolding bytes
status_text Status.ok = bytes "ok"
status_text Status.nxdomain = bytes "nxdomain"
status_text Status.timeout = bytes "timeout"
status_text Status.servfail = bytes "servfail"
status_text Status.refused = bytes "refused"
status_text Status.error = bytes "error"

csv_header : List Text
unfolding bytes
csv_header =
    bytes "Resolver"
    ∷ bytes "IP"
    ∷ bytes "Country"
    ∷ bytes "City"
    ∷ bytes "Status"
    ∷ bytes "Answer"
    ∷ bytes "TTL"
    ∷ bytes "Duration_ms"
    ∷ bytes "Queried_At"
    ∷ []

answer_cell : List Answer → Text
unfolding join bytes
answer_cell answers = join (bytes "; ") (map (λ (a : Answer). a.value) answers)

-- The time to live of the first answer.
ttl_cell : List Answer → Text
unfolding decimal
ttl_cell [] = []
ttl_cell (a ∷ answers) = decimal a.ttl

csv_record : (ℕ → Text) → ResolverResult → List Text
unfolding status_text answer_cell ttl_cell decimal
csv_record format_time r =
    r.resolver.name
    ∷ r.resolver.ip
    ∷ r.resolver.country
    ∷ r.resolver.city
    ∷ status_text r.status
    ∷ answer_cell r.answers
    ∷ ttl_cell r.answers
    ∷ decimal r.duration_ms
    ∷ format_time r.queried_at
    ∷ []

module _ {W : Type 0} (cw : CsvWriter W) (format_time : ℕ → Text) where
  unfoldable pub when_written :
      Text → Action W (Result (Unit {0})) → Result (Unit {0}) → Action W (Result (Unit {0}))
  when_written message rest (err e) = pure (err (wrap message e))
  when_written message rest (ok u) = rest

  write_records : List ResolverResult → Action W (Result (Unit {0}))
  unfolding when_written csv_record bytes
  write_records [] = cw.flush
  write_records (r ∷ rs) = do
    written ← cw.write (csv_record format_time r)
    when_written (bytes "writing csv record") (write_records rs) written

  -- `CSV`
  unfoldable pub csv : Check → Action W (Result (Unit {0}))
  unfolding when_written csv_header write_records bytes
  csv check = do
    written ← cw.write csv_header
    when_written (bytes "writing csv header") (write_records check.results) written
