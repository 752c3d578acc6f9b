-- ===== src/Tests/Routes.antt =====
-- The handlers that write settings and monitors.
use dnsmon.Base.{ℕ, ◌≡◌, refl, List, [], ◌∷◌, Option, none, some, true, false, Text, bytes}
use dnsmon.Settings.{Monitor, Settings}
use dnsmon.World.{ok, Storage}
use dnsmon.Tests.Logins.{hashing}
use dnsmon.Api.MonitorRoutes.{
  MonitorRequest, created_monitor, updated_monitor, create_monitor, update_monitor,
}
use dnsmon.Api.MonitorRoutes.Kept.{IsKept, IsUpdate, create_monitor-IsKept, update_monitor-IsKept}
use dnsmon.Api.SettingsRoutes.{UpdateSettingsRequest, SettingsView, update_settings}
use dnsmon.Api.SettingsRoutes.Saved.{IsSaved, update_settings-IsSaved}
use dnsmon.Tests.Fixtures.{World, storage, checker}

abbrev wanted : MonitorRequest
wanted = record {
  name = [];
  type = bytes "propagation";
  fqdn = bytes "example.com";
  record_type = bytes "A";
  expected = bytes " 8.8.8.8 " ∷ bytes " " ∷ [];
  scheduler_id = [];
  channel_id = [];
  enabled = true;
}

abbrev complaint : MonitorRequest → Text
complaint req = bytes "missing"

abbrev created_status : ℕ
created_status = 201

abbrev fine_status : ℕ
fine_status = 200

abbrev made : Monitor
made = created_monitor wanted (bytes "0000000000000000") 5

create_monitor-IsKept_example :
    (created_status ≡ 201) × IsKept storage checker.machine complaint made
unfolding create_monitor dnsmon.Base.text_eq dnsmon.Checker.Request.matches_domain
    dnsmon.Dns.RecordTypes.is_supported dnsmon.Settings.Ids.new_id
create_monitor-IsKept_example =
    create_monitor-IsKept storage checker.machine complaint (some wanted) created_status made
      (5, []) refl

abbrev holding : Storage World
holding = record storage { get_monitor = λ id w. (ok made, w) }

update_monitor-IsKept_example :
    (fine_status ≡ 200)
    × IsKept holding checker.machine complaint (updated_monitor wanted made 6)
    × IsUpdate holding checker.machine complaint (bytes "m") (updated_monitor wanted made 6)
unfolding update_monitor dnsmon.Base.text_eq dnsmon.Checker.Request.matches_domain
    dnsmon.Dns.RecordTypes.is_supported
update_monitor-IsKept_example =
    update_monitor-IsKept holding checker.machine complaint (bytes "m") (some wanted) fine_status
      (updated_monitor wanted made 6) (6, []) refl

abbrev asked : UpdateSettingsRequest
asked = record {
  enabled = false;
  username = bytes "admin";
  password = [];
  notifications = [];
  disabled_resolvers = bytes "google" ∷ [];
}

abbrev shown : SettingsView
shown = record {
  enabled = false;
  username = bytes "admin";
  password_set = false;
  notifications = [];
  disabled_resolvers = bytes "google" ∷ [];
}

update_settings-IsSaved_example :
    (fine_status ≡ 200) × IsSaved storage checker.machine hashing shown
unfolding update_settings dnsmon.Settings.default_settings
update_settings-IsSaved_example =
    update_settings-IsSaved storage checker.machine hashing (some asked) fine_status shown (5, [])
      refl
