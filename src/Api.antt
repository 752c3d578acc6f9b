-- ===== src/Api.antt =====
-- internal/api: what the handlers of internal/api/v1 do with the storage and what they reply. The body
-- of a request comes decoded, as `none` where `json.Decode` fails; a reply is a status with a value, a
-- status alone, or the error envelope of internal/api/apierr/apierr.go without its request id.
pub mod MonitorRoutes
pub mod SettingsRoutes
pub mod ScheduleRoutes
pub mod HistoryRoutes
pub mod Auth
pub mod CheckRoutes
pub mod Login
pub mod Routes
pub mod SystemRoutes
pub mod Headers
pub mod StreamRoutes
use dnsmon.Base.{◌≡◌, refl, ap, ℕ, List, Option, none, some, Bool, Text, bytes, if◌then◌else◌}
use dnsmon.World.{Result, ok, err, Error, is_not_found, Action, ◌>>=◌, pure}

-- The status, the code and the message of a refusal.
abbrev pub Refusal : Type 0
Refusal = ℕ × Text × Text

-- A refusal has the status, the code and the message of the envelope.
pub data Reply (A : Type 0) : Type 0 where
  refusal : ℕ → Text → Text → Reply A
  value : ℕ → A → Reply A
  bare : ℕ → Reply A

abbrev pub invalid_input : Text
invalid_input = bytes "INVALID_INPUT"

abbrev pub not_found_code : Text
not_found_code = bytes "NOT_FOUND"

abbrev pub internal_error : Text
internal_error = bytes "INTERNAL_ERROR"

abbrev pub invalid_record_type : Text
invalid_record_type = bytes "INVALID_RECORD_TYPE"

abbrev pub invalid_domain : Text
invalid_domain = bytes "INVALID_DOMAIN"

abbrev pub bad_body : {A : Type 0} → Reply A
bad_body = refusal 400 invalid_input (bytes "Invalid request body.")

-- The reply to an error of the storage that may be that there is no such row.
unfoldable pub missing_or : {A : Type 0} → Text → Text → Error → Reply A
missing_or missing broken e =
    if is_not_found e then refusal 404 not_found_code missing else refusal 500 internal_error broken

-- The reply of the handlers that delete.
unfoldable pub deleted : Text → Text → Result (Unit {0}) → Reply (Unit {0})
unfolding missing_or
deleted missing broken (ok u) = bare 204
deleted missing broken (err e) = missing_or missing broken e

-- The reply of the handlers that read or write without a special case for a missing row.
unfoldable pub replied : {A : Type 0} → ℕ → Text → Result A → Reply A
replied status broken (ok a) = value status a
replied status broken (err e) = refusal 500 internal_error broken

-- The reply with a value that is at hand, once the storage has taken it.
unfoldable pub stored : {A : Type 0} → ℕ → Text → A → Result (Unit {0}) → Reply A
stored status broken a (ok u) = value status a
stored status broken a (err e) = refusal 500 internal_error broken

pub refusal≢value :
    {A : Type 0}
    → (st : ℕ) (code message : Text) (st' : ℕ) (a : A) → ¬ (refusal st code message ≡ value st' a)
refusal≢value st code message st' a e = cc

status_of : {A : Type 0} → Reply A → ℕ
status_of (refusal st code message) = st
status_of (value st a) = st
status_of (bare st) = st

value_of : {A : Type 0} → A → Reply A → A
value_of a (value st b) = b
value_of a r = a

pub value-injective :
    {A : Type 0} → (st st' : ℕ) (a a' : A) → value st a ≡ value st' a' → (st ≡ st') × (a ≡ a')
unfolding status_of value_of
value-injective st st' a a' e = (ap status_of e, ap (value_of a) e)
