-- ===== src/World.antt =====
-- What the operations act on: a world `W`, whose parts the program reaches through the interfaces
-- below (Go's `storage.Storage`, `cache.Cache`, `dnsclient.Client`, the clock and the random
-- source), and results that are values or errors. An operation is a function of the world that
-- returns its result and the next world; what it wrote before an error stays written.
mod Results
unfoldable pub use Results.*
use dnsmon.Base.{ℕ, Bool, List, Option, Text}
use dnsmon.Dns.{Resolver, ResolverResult, Check}
use dnsmon.Settings.{Settings, ApiToken, Schedule, Monitor, MonitorEvent}

-- internal/storage/storage.go
pub record Storage (W : Type 0) : Type 0 where
  pub save_check : Check → W → Result (Unit {0}) × W
  pub get_check : Text → W → Result Check × W
  pub list_checks : ℕ → ℕ → W → Result (List Check) × W
  pub delete_check : Text → W → Result (Unit {0}) × W
  pub purge_old_checks : ℕ → W → Result (Unit {0}) × W
  pub get_settings : W → Result Settings × W
  pub save_settings : Settings → W → Result (Unit {0}) × W
  pub list_api_tokens : W → Result (List ApiToken) × W
  pub create_api_token : ApiToken → W → Result (Unit {0}) × W
  pub delete_api_token : Text → W → Result (Unit {0}) × W
  pub list_schedules : W → Result (List Schedule) × W
  pub save_schedule : Schedule → W → Result (Unit {0}) × W
  pub delete_schedule : Text → W → Result (Unit {0}) × W
  pub list_monitors : W → Result (List Monitor) × W
  pub get_monitor : Text → W → Result Monitor × W
  pub save_monitor : Monitor → W → Result (Unit {0}) × W
  pub delete_monitor : Text → W → Result (Unit {0}) × W
  pub list_monitor_events : Text → ℕ → W → Result (List MonitorEvent) × W
  pub append_monitor_event : MonitorEvent → W → Result (Unit {0}) × W

-- internal/cache/cache.go, the operations that the checks call; times are nanoseconds
pub record Cache (W : Type 0) : Type 0 where
  pub get : Text → W → Option Text × W
  pub set : Text → Text → ℕ → W → Result (Unit {0}) × W

-- internal/dnsclient/client.go
pub record Client (W : Type 0) : Type 0 where
  pub query : Resolver → Text → ℕ → W → Result ResolverResult × W

-- `time.Now()` in nanoseconds since 1970, and the reader of `crypto/rand`: the number of bytes that
-- is wanted, and `none` where it fails.
pub record Machine (W : Type 0) : Type 0 where
  pub now : W → ℕ × W
  pub random : ℕ → W → Option Text × W
