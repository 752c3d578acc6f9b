-- ===== src/Settings.antt =====
-- internal/settings/settings.go: the configuration that is edited under /settings, and the
-- monitors with their changelog. The type of a monitor or of a channel is kept as text, as the
-- requests bring it; a `time.Time` is the nanoseconds since 1970.
pub mod Ids
pub mod Session
pub mod Secret
use dnsmon.Base.{ℕ, Bool, false, List, [], Option, Text, bytes}

pub record AuthSettings : Type 0 where
  pub enabled : Bool
  pub username : Text
  pub password_hash : Text

pub record NotificationChannel : Type 0 where
  pub id : Text
  pub type : Text
  pub name : Text
  pub enabled : Bool
  pub config : List (Text × Text)

pub record Settings : Type 0 where
  pub auth : AuthSettings
  pub notifications : List NotificationChannel
  pub disabled_resolvers : List Text
  pub session_secret : Text

pub record ApiToken : Type 0 where
  pub id : Text
  pub name : Text
  pub hash : Text
  pub prefix : Text
  pub created_at : ℕ
  pub last_used_at : Option ℕ

pub record Schedule : Type 0 where
  pub id : Text
  pub name : Text
  pub cron : Text
  pub enabled : Bool
  pub created_at : ℕ
  pub updated_at : ℕ

-- `MonitorPropagation` and `MonitorChange`
unfoldable pub monitor_propagation : Text
unfolding bytes
monitor_propagation = bytes "propagation"

unfoldable pub monitor_change : Text
unfolding bytes
monitor_change = bytes "change"

-- `ChannelShoutrrr`, `ChannelGreenAPI` and `ChannelGoWA`
unfoldable pub channel_shoutrrr : Text
unfolding bytes
channel_shoutrrr = bytes "shoutrrr"

unfoldable pub channel_green_api : Text
unfolding bytes
channel_green_api = bytes "greenapi"

unfoldable pub channel_gowa : Text
unfolding bytes
channel_gowa = bytes "gowa"

pub data EventStatus : Type 0 where
  created ok not_propagated changed error : EventStatus

pub record Monitor : Type 0 where
  pub id : Text
  pub name : Text
  pub type : Text
  pub fqdn : Text
  pub record_type : Text
  pub expected : List Text
  pub scheduler_id : Text
  pub channel_id : Text
  pub enabled : Bool
  pub created_at : ℕ
  pub updated_at : ℕ

pub record MonitorEvent : Type 0 where
  pub id : Text
  pub monitor_id : Text
  pub timestamp : ℕ
  pub status : EventStatus
  pub observed : List Text
  pub message : Text
  pub notified : Bool

-- `Default()`
unfoldable pub default_settings : Settings
default_settings = record {
  auth = record { enabled = false; username = []; password_hash = [] };
  notifications = [];
  disabled_resolvers = [];
  session_secret = [];
}
