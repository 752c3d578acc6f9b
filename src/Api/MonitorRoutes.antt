-- ===== src/Api/MonitorRoutes.antt =====
-- internal/api/v1/monitors.go. The text of an error of `validate.Struct` is an argument.
pub mod Accepted
pub mod Kept
use dnsmon.Base.{
  ℕ, List, [], ◌∷◌, Option, none, some, Bool, true, false, not, ◌&&◌, ◌||◌, Text, bytes, is_empty,
  text_eq, trim_space, ltb, if◌then◌else◌, ℤ, pos, negsuc, parse_int,
}
use dnsmon.Dns.RecordTypes.{is_supported}
use dnsmon.Settings.{Monitor, MonitorEvent, EventStatus, monitor_propagation, monitor_change}
use dnsmon.Settings.Ids.{new_id}
use dnsmon.World.{Result, ok, err, Error, Action, ◌>>=◌, pure, Storage, Machine}
use dnsmon.Checker.Request.{matches_domain}
use dnsmon.Checker.Summary.{Iterate}
use dnsmon.Monitor.{Evaluator, run_by_id}
use dnsmon.Api.{
  Refusal, Reply, refusal, value, bare, invalid_input, invalid_record_type, invalid_domain,
  bad_body, missing_or, deleted, replied, stored,
}

pub record MonitorRequest : Type 0 where
  pub name : Text
  pub type : Text
  pub fqdn : Text
  pub record_type : Text
  pub expected : List Text
  pub scheduler_id : Text
  pub channel_id : Text
  pub enabled : Bool

-- `cleanValues(in)`
unfoldable pub clean_values : List Text → List Text
unfolding trim_space
clean_values [] = []
clean_values (v ∷ vs) =
    let rest = clean_values vs in if is_empty (trim_space v) then rest else trim_space v ∷ rest

abbrev pub lacks_field : MonitorRequest → Bool
lacks_field req = is_empty req.type || is_empty req.fqdn || is_empty req.record_type

-- `validate`: the reply with which it refuses, if it does.
unfoldable pub refused : (MonitorRequest → Text) → MonitorRequest → Option Refusal
unfolding bytes monitor_propagation monitor_change clean_values
refused complaint req =
    if lacks_field req
    then some (400, invalid_input, (complaint req))
    else if not (text_eq req.type monitor_propagation) && not (text_eq req.type monitor_change)
    then some (400, invalid_input, (bytes "type must be 'propagation' or 'change'."))
    else if not (matches_domain req.fqdn)
    then some (400, invalid_domain, (bytes "Invalid FQDN."))
    else if not (is_supported req.record_type)
    then some (400, invalid_record_type, (bytes "Unsupported record type."))
    else if text_eq req.type monitor_propagation && is_empty (clean_values req.expected)
    then some
        (400, invalid_input, (bytes "Propagation monitors require at least one expected value."))
    else none

-- The name, or the domain name where there is none.
unfoldable pub name_of : MonitorRequest → Text
unfolding trim_space
name_of req = if is_empty (trim_space req.name) then trim_space req.fqdn else trim_space req.name

unfoldable pub created_monitor : MonitorRequest → Text → ℕ → Monitor
unfolding name_of clean_values trim_space
created_monitor req id now = record {
  id = id;
  name = name_of req;
  type = req.type;
  fqdn = trim_space req.fqdn;
  record_type = req.record_type;
  expected = clean_values req.expected;
  scheduler_id = req.scheduler_id;
  channel_id = req.channel_id;
  enabled = req.enabled;
  created_at = now;
  updated_at = now;
}

unfoldable pub updated_monitor : MonitorRequest → Monitor → ℕ → Monitor
unfolding name_of clean_values trim_space
updated_monitor req m now = record {
  id = m.id;
  name = name_of req;
  type = req.type;
  fqdn = trim_space req.fqdn;
  record_type = req.record_type;
  expected = clean_values req.expected;
  scheduler_id = req.scheduler_id;
  channel_id = req.channel_id;
  enabled = req.enabled;
  created_at = m.created_at;
  updated_at = now;
}

created_event : Text → Monitor → ℕ → MonitorEvent
unfolding bytes
created_event id m now = record {
  id = id;
  monitor_id = m.id;
  timestamp = now;
  status = EventStatus.created;
  observed = m.expected;
  message = bytes "Monitor created.";
  notified = false;
}

-- The limit of `MonitorHistory`: a positive number, or 100.
unfoldable pub history_limit : Option ℤ → ℕ
history_limit none = 100
history_limit (some (pos n)) = if ltb 0 n then n else 100
history_limit (some (negsuc n)) = 100

module _ {W : Type 0} (store : Storage W) (machine : Machine W)
    (complaint : MonitorRequest → Text) where
  -- `ListMonitors`
  unfoldable pub list_monitors : Action W (Reply (List Monitor))
  unfolding replied bytes
  list_monitors = do
    list ← store.list_monitors
    pure (replied 200 (bytes "Failed to list monitors.") list)

  -- The end of `CreateMonitor`: the first entry of the changelog, whose failure is ignored.
  unfoldable pub announce : Monitor → ℕ → Result (Unit {0}) → Action W (Reply Monitor)
  unfolding created_event stored bytes
  announce m now (err e) = pure (stored 201 (bytes "Failed to create monitor.") m (err e))
  announce m now (ok u) = do
    id ← new_id machine
    done ← store.append_monitor_event (created_event id m now)
    pure (stored 201 (bytes "Failed to create monitor.") m (ok u))

  unfoldable pub create_checked : MonitorRequest → Option Refusal → Action W (Reply Monitor)
  unfolding created_monitor announce
  create_checked req (some (status, code, message)) = pure (refusal status code message)
  create_checked req none = do
    now ← machine.now
    id ← new_id machine
    done ← store.save_monitor (created_monitor req id now)
    announce (created_monitor req id now) now done

  -- `CreateMonitor`
  unfoldable pub create_monitor : Option MonitorRequest → Action W (Reply Monitor)
  unfolding create_checked refused
  create_monitor none = pure bad_body
  create_monitor (some req) = create_checked req (refused complaint req)

  unfoldable pub update_found : MonitorRequest → Result Monitor → Action W (Reply Monitor)
  unfolding updated_monitor missing_or stored bytes
  update_found req (err e) =
      pure (missing_or (bytes "Monitor not found.") (bytes "Failed to load monitor.") e)
  update_found req (ok m) = do
    now ← machine.now
    done ← store.save_monitor (updated_monitor req m now)
    pure (stored 200 (bytes "Failed to update monitor.") (updated_monitor req m now) done)

  unfoldable pub update_checked : Text → MonitorRequest → Option Refusal → Action W (Reply Monitor)
  unfolding update_found
  update_checked id req (some (status, code, message)) = pure (refusal status code message)
  update_checked id req none = do found ← store.get_monitor id; update_found req found

  -- `UpdateMonitor`
  unfoldable pub update_monitor : Text → Option MonitorRequest → Action W (Reply Monitor)
  unfolding update_checked refused
  update_monitor id none = pure bad_body
  update_monitor id (some req) = update_checked id req (refused complaint req)

  -- `DeleteMonitor`
  unfoldable pub delete_monitor : Text → Action W (Reply (Unit {0}))
  unfolding deleted bytes
  delete_monitor id = do
    done ← store.delete_monitor id
    pure (deleted (bytes "Monitor not found.") (bytes "Failed to delete monitor.") done)

  -- `MonitorHistory`
  unfoldable pub monitor_history : Text → Text → Action W (Reply (List MonitorEvent))
  unfolding history_limit replied bytes parse_int
  monitor_history id limit = do
    events ← store.list_monitor_events id (history_limit (parse_int limit))
    pure (replied 200 (bytes "Failed to load monitor history.") events)

run_reply : Result MonitorEvent → Reply MonitorEvent
unfolding missing_or bytes
run_reply (ok event) = value 200 event
run_reply (err e) = missing_or (bytes "Monitor not found.") (bytes "Failed to run monitor.") e

-- `RunMonitor`
unfoldable pub run_monitor :
    {W : Type 0} → Evaluator W → Iterate → Text → Action W (Reply MonitorEvent)
unfolding run_reply
run_monitor e iterate id = do event ← run_by_id e iterate id; pure (run_reply event)
