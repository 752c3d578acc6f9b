-- ===== src/Api/ScheduleRoutes.antt =====
-- internal/api/v1/settings.go: the schedules. The text of an error of `validate.Struct` is an argument.
use dnsmon.Base.{
  ℕ, zero, suc, ◌+◌, List, [], ◌∷◌, Option, none, some, Bool, true, false, not, ◌||◌, ◌==◌, Text,
  bytes, is_empty, text_eq, trim_space, has_prefix, drop, front_space, member, ltb, length,
  if◌then◌else◌,
}
use dnsmon.Settings.{Schedule}
use dnsmon.Settings.Ids.{new_id}
use dnsmon.World.{Result, ok, err, not_found, Action, ◌>>=◌, pure, Storage, Machine}
use dnsmon.Api.{
  Refusal, Reply, refusal, invalid_input, bad_body, missing_or, deleted, replied, stored,
}

pub record ScheduleRequest : Type 0 where
  pub name : Text
  pub cron : Text
  pub enabled : Bool

-- `len(strings.Fields(s))`, behind `k` bytes of white space that are skipped; the first argument says
-- whether the byte before is part of a field.
fields_from : Bool → ℕ → Text → ℕ
fields_from inside k [] = 0
fields_from inside (suc k) (c ∷ s) = fields_from false k s
fields_from inside zero (c ∷ s) = elim (front_space (c ∷ s)) [
  | zero ↦ (if inside then 0 else 1) + fields_from true 0 s
  | suc k ↦ fields_from false k s
]

unfoldable pub count_fields : Text → ℕ
unfolding fields_from front_space
count_fields s = fields_from false 0 s

macros : List Text
unfolding bytes
macros =
    bytes "@hourly"
    ∷ bytes "@daily"
    ∷ bytes "@weekly"
    ∷ bytes "@monthly"
    ∷ bytes "@yearly"
    ∷ bytes "@annually"
    ∷ bytes "@midnight"
    ∷ []

valid_trimmed : Text → Bool
unfolding macros member has_prefix count_fields trim_space bytes
valid_trimmed expr =
    if is_empty expr
    then false
    else if member expr macros
    then true
    else if has_prefix expr (bytes "@every ")
    then ltb 0 (length (trim_space (drop 7 expr)))
    else count_fields expr == 5 || count_fields expr == 6

-- `validCron(expr)`
unfoldable pub valid_cron : Text → Bool
unfolding valid_trimmed trim_space
valid_cron expr = valid_trimmed (trim_space expr)

unfoldable pub schedule_refused : (ScheduleRequest → Text) → ScheduleRequest → Option Refusal
unfolding valid_cron bytes
schedule_refused complaint req =
    if is_empty req.name || is_empty req.cron
    then some (400, invalid_input, (complaint req))
    else if not (valid_cron req.cron)
    then some (
      400,
      invalid_input,
      (bytes
          "Invalid schedule: use @hourly, @daily, @weekly, @monthly, @yearly, or a 5/6-field cron expression."),
    )
    else none

-- The loop of `findSchedule`.
unfoldable pub schedule_of : Text → List Schedule → Result Schedule
schedule_of id [] = err not_found
schedule_of id (s ∷ ss) = if text_eq s.id id then ok s else schedule_of id ss

find_in : Text → Result (List Schedule) → Result Schedule
unfolding schedule_of
find_in id (err e) = err e
find_in id (ok list) = schedule_of id list

module _ {W : Type 0} (store : Storage W) (machine : Machine W) where
  -- `ListSchedules`
  unfoldable pub list_schedules : Action W (Reply (List Schedule))
  unfolding replied bytes
  list_schedules = do
    list ← store.list_schedules
    pure (replied 200 (bytes "Failed to list schedules.") list)

  create_schedule_checked : ScheduleRequest → Option Refusal → Action W (Reply Schedule)
  unfolding stored trim_space bytes
  create_schedule_checked req (some (status, code, message)) = pure (refusal status code message)
  create_schedule_checked req none = do
    now ← machine.now
    id ← new_id machine
    let schedule : Schedule = record {
      id = id;
      name = req.name;
      cron = trim_space req.cron;
      enabled = req.enabled;
      created_at = now;
      updated_at = now;
    }
    done ← store.save_schedule schedule
    pure (stored 201 (bytes "Failed to create schedule.") schedule done)

  -- `CreateSchedule`
  unfoldable pub create_schedule :
      (ScheduleRequest → Text) → Option ScheduleRequest → Action W (Reply Schedule)
  unfolding create_schedule_checked schedule_refused
  create_schedule complaint none = pure bad_body
  create_schedule complaint (some req) =
      create_schedule_checked req (schedule_refused complaint req)

  update_schedule_found : ScheduleRequest → Result Schedule → Action W (Reply Schedule)
  unfolding missing_or stored trim_space bytes
  update_schedule_found req (err e) =
      pure (missing_or (bytes "Schedule not found.") (bytes "Failed to load schedule.") e)
  update_schedule_found req (ok s) = do
    now ← machine.now
    let schedule : Schedule = record s {
      name = req.name;
      cron = trim_space req.cron;
      enabled = req.enabled;
      updated_at = now;
    }
    done ← store.save_schedule schedule
    pure (stored 200 (bytes "Failed to update schedule.") schedule done)

  update_schedule_checked : Text → ScheduleRequest → Option Refusal → Action W (Reply Schedule)
  unfolding update_schedule_found find_in
  update_schedule_checked id req (some (status, code, message)) = pure (refusal status code message)
  update_schedule_checked id req none = do
    list ← store.list_schedules
    update_schedule_found req (find_in id list)

  -- `UpdateSchedule`
  unfoldable pub update_schedule :
      (ScheduleRequest → Text) → Text → Option ScheduleRequest → Action W (Reply Schedule)
  unfolding update_schedule_checked schedule_refused
  update_schedule complaint id none = pure bad_body
  update_schedule complaint id (some req) =
      update_schedule_checked id req (schedule_refused complaint req)

  -- `DeleteSchedule`
  unfoldable pub delete_schedule : Text → Action W (Reply (Unit {0}))
  unfolding deleted bytes
  delete_schedule id = do
    done ← store.delete_schedule id
    pure (deleted (bytes "Schedule not found.") (bytes "Failed to delete schedule.") done)
