-- ===== src/Api/Routes.antt =====
-- internal/api/server.go, `routes`: which handler a request reaches, and which of them stand behind
-- `RequireAuth`. The match of a path with a pattern is the router's; the handlers are names here.
pub mod Guarded
use dnsmon.Base.{
  ℕ, List, [], ◌∷◌, Option, none, some, Bool, true, false, Text, bytes, if◌then◌else◌,
}
use dnsmon.World.{Action, ◌>>=◌, pure, Storage, Machine}
use dnsmon.Settings.Session.{Signing}
use dnsmon.Api.Auth.{require_auth}

pub data Method : Type 0 where
  get post put delete : Method

-- The handlers: a page of the web assets, or a function of internal/api/v1 or internal/api/docs.
pub data Handler : Type 0 where
  page : Text → Handler
  files swagger_ui spec health readyz version : Handler
  list_resolvers get_resolver record_types post_check stream_check get_check : Handler
  export_check post_lookup post_reverse post_trace login logout : Handler
  session list_history delete_history get_settings update_settings test_notification : Handler
  list_tokens create_token delete_token list_schedules create_schedule update_schedule : Handler
  delete_schedule list_monitors create_monitor update_monitor delete_monitor monitor_history :
      Handler
  run_monitor : Handler

pub record Route : Type 0 where
  pub method : Method
  pub pattern : Text
  pub is_guarded : Bool
  pub handler : Handler

open_at : Method → Text → Handler → Route
open_at method pattern handler = record {
  method = method;
  pattern = pattern;
  is_guarded = false;
  handler = handler;
}

guarded_at : Method → Text → Handler → Route
guarded_at method pattern handler = record {
  method = method;
  pattern = pattern;
  is_guarded = true;
  handler = handler;
}

unfoldable pub routes : List Route
unfolding bytes open_at guarded_at
routes =
    open_at Method.get (bytes "/") Handler.files
    ∷ open_at Method.get (bytes "/css/*") Handler.files
    ∷ open_at Method.get (bytes "/js/*") Handler.files
    ∷ open_at Method.get (bytes "/static/*") Handler.files
    ∷ open_at Method.get (bytes "/vendor/*") Handler.files
    ∷ open_at Method.get (bytes "/check/{id}") (Handler.page (bytes "/"))
    ∷ open_at Method.get (bytes "/lookup") (Handler.page (bytes "/lookup.html"))
    ∷ open_at Method.get (bytes "/reverse") (Handler.page (bytes "/reverse.html"))
    ∷ open_at Method.get (bytes "/trace") (Handler.page (bytes "/trace.html"))
    ∷ open_at Method.get (bytes "/about") (Handler.page (bytes "/about.html"))
    ∷ guarded_at Method.get (bytes "/settings") (Handler.page (bytes "/settings.html"))
    ∷ open_at Method.get (bytes "/login") (Handler.page (bytes "/login.html"))
    ∷ open_at Method.get (bytes "/api/docs") Handler.swagger_ui
    ∷ open_at Method.get (bytes "/api/docs/openapi.yaml") Handler.spec
    ∷ open_at Method.get (bytes "/api/v1/health") Handler.health
    ∷ open_at Method.get (bytes "/api/v1/readyz") Handler.readyz
    ∷ open_at Method.get (bytes "/api/v1/version") Handler.version
    ∷ open_at Method.get (bytes "/api/v1/resolvers") Handler.list_resolvers
    ∷ open_at Method.get (bytes "/api/v1/resolvers/{id}") Handler.get_resolver
    ∷ open_at Method.get (bytes "/api/v1/record-types") Handler.record_types
    ∷ open_at Method.post (bytes "/api/v1/check") Handler.post_check
    ∷ open_at Method.get (bytes "/api/v1/check/stream") Handler.stream_check
    ∷ open_at Method.get (bytes "/api/v1/check/{id}") Handler.get_check
    ∷ open_at Method.get (bytes "/api/v1/check/{id}/export") Handler.export_check
    ∷ open_at Method.post (bytes "/api/v1/lookup") Handler.post_lookup
    ∷ open_at Method.post (bytes "/api/v1/reverse") Handler.post_reverse
    ∷ open_at Method.post (bytes "/api/v1/trace") Handler.post_trace
    ∷ open_at Method.post (bytes "/api/v1/auth/login") Handler.login
    ∷ open_at Method.post (bytes "/api/v1/auth/logout") Handler.logout
    ∷ open_at Method.get (bytes "/api/v1/auth/session") Handler.session
    ∷ guarded_at Method.get (bytes "/api/v1/history") Handler.list_history
    ∷ guarded_at Method.delete (bytes "/api/v1/history/{id}") Handler.delete_history
    ∷ guarded_at Method.get (bytes "/api/v1/settings") Handler.get_settings
    ∷ guarded_at Method.put (bytes "/api/v1/settings") Handler.update_settings
    ∷ guarded_at Method.post (bytes "/api/v1/settings/notifications/test") Handler.test_notification
    ∷ guarded_at Method.get (bytes "/api/v1/settings/tokens") Handler.list_tokens
    ∷ guarded_at Method.post (bytes "/api/v1/settings/tokens") Handler.create_token
    ∷ guarded_at Method.delete (bytes "/api/v1/settings/tokens/{id}") Handler.delete_token
    ∷ guarded_at Method.get (bytes "/api/v1/settings/schedules") Handler.list_schedules
    ∷ guarded_at Method.post (bytes "/api/v1/settings/schedules") Handler.create_schedule
    ∷ guarded_at Method.put (bytes "/api/v1/settings/schedules/{id}") Handler.update_schedule
    ∷ guarded_at Method.delete (bytes "/api/v1/settings/schedules/{id}") Handler.delete_schedule
    ∷ guarded_at Method.get (bytes "/api/v1/settings/monitors") Handler.list_monitors
    ∷ guarded_at Method.post (bytes "/api/v1/settings/monitors") Handler.create_monitor
    ∷ guarded_at Method.put (bytes "/api/v1/settings/monitors/{id}") Handler.update_monitor
    ∷ guarded_at Method.delete (bytes "/api/v1/settings/monitors/{id}") Handler.delete_monitor
    ∷ guarded_at Method.get (bytes "/api/v1/settings/monitors/{id}/history") Handler.monitor_history
    ∷ guarded_at Method.post (bytes "/api/v1/settings/monitors/{id}/run") Handler.run_monitor
    ∷ []

module _ {W : Type 0} (store : Storage W) (machine : Machine W) (signing : Signing) where
  unfoldable pub when_passed : Handler → Bool → Option Handler
  when_passed h true = some h
  when_passed h false = none

  unfoldable pub served_by : Bool → Handler → Option Text → Action W (Option Handler)
  unfolding require_auth when_passed
  served_by false h cookie = pure (some h)
  served_by true h cookie = do
    passes ← require_auth store machine signing cookie
    pure (when_passed h passes)

  -- The handler that a request on a route reaches, with the cookie that it brings.
  unfoldable pub served : Route → Option Text → Action W (Option Handler)
  unfolding served_by
  served r cookie = served_by r.is_guarded r.handler cookie
