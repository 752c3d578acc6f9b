-- ===== src/Storage/Noop.antt =====
-- internal/storage/storage.go: the store that keeps nothing.
use dnsmon.Base.{[]}
use dnsmon.Settings.{default_settings}
use dnsmon.World.{ok, err, not_found, pure, Storage}

-- `Noop`
unfoldable pub noop : {W : Type 0} → Storage W
unfolding default_settings
noop = record {
  save_check = λ c. pure (ok tt);
  get_check = λ id. pure (err not_found);
  list_checks = λ limit offset. pure (ok []);
  delete_check = λ id. pure (ok tt);
  purge_old_checks = λ days. pure (ok tt);
  get_settings = pure (ok default_settings);
  save_settings = λ s. pure (ok tt);
  list_api_tokens = pure (ok []);
  create_api_token = λ t. pure (ok tt);
  delete_api_token = λ id. pure (ok tt);
  list_schedules = pure (ok []);
  save_schedule = λ sc. pure (ok tt);
  delete_schedule = λ id. pure (ok tt);
  list_monitors = pure (ok []);
  get_monitor = λ id. pure (err not_found);
  save_monitor = λ m. pure (ok tt);
  delete_monitor = λ id. pure (ok tt);
  list_monitor_events = λ id limit. pure (ok []);
  append_monitor_event = λ e. pure (ok tt);
}
