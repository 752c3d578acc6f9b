-- ===== src/Api/Routes/Guarded.antt =====
-- What an anonymous request does not reach.
use mathlib.Core.Bool.{and-eq-true_iff, true≢false}
use dnsmon.Base.{
  ℕ, zero, suc, ◌≡◌, refl, sym, ap, ◌∙◌, List, [], ◌∷◌, Option, none, some, Bool, true, false, not,
  ◌&&◌, ◌||◌, Text, bytes, text_eq, get_elem?,
}
use dnsmon.World.{Storage, Machine}
use dnsmon.Settings.Session.{Signing}
use dnsmon.Api.Auth.{require_auth, Passes, require_auth-Passes}
use dnsmon.Api.Routes.{Handler, Route, routes, when_passed, served_by, served}

-- The handlers that show or change the settings, the tokens, the schedules, the monitors and the
-- history, that send a test message, or that run a monitor.
unfoldable pub is_private : Handler → Bool
unfolding text_eq bytes
is_private (Handler.page path) = text_eq path (bytes "/settings.html")
is_private Handler.list_history = true
is_private Handler.delete_history = true
is_private Handler.get_settings = true
is_private Handler.update_settings = true
is_private Handler.test_notification = true
is_private Handler.list_tokens = true
is_private Handler.create_token = true
is_private Handler.delete_token = true
is_private Handler.list_schedules = true
is_private Handler.create_schedule = true
is_private Handler.update_schedule = true
is_private Handler.delete_schedule = true
is_private Handler.list_monitors = true
is_private Handler.create_monitor = true
is_private Handler.update_monitor = true
is_private Handler.delete_monitor = true
is_private Handler.monitor_history = true
is_private Handler.run_monitor = true
is_private _ = false

is_safe : Route → Bool
unfolding is_private
is_safe r = not (is_private r.handler) || r.is_guarded

all_safe : List Route → Bool
unfolding is_safe
all_safe [] = true
all_safe (r ∷ rs) = is_safe r && all_safe rs

routes_safe : all_safe routes ≡ true
unfolding all_safe is_safe routes is_private bytes text_eq
routes_safe = refl

none≢some : (h : Handler) → ¬ (none ≡ some h)
none≢some h e = cc

some-injective : (r s : Route) → some r ≡ some s → r ≡ s
some-injective r s e = ap (λ o. elim o [ none ↦ r | some t ↦ t ]) e

safe_at :
    (rs : List Route) (i : ℕ) (r : Route)
    → all_safe rs ≡ true
    → get_elem? rs i ≡ some r
    → is_safe r ≡ true
unfolding all_safe
safe_at [] i r a e = absurd cc
safe_at (s ∷ rs) zero r a e =
    ap is_safe (sym (some-injective s r e)) ∙ ((and-eq-true_iff (is_safe s) (all_safe rs)).0 a).0
safe_at (s ∷ rs) (suc i) r a e =
    safe_at rs i r ((and-eq-true_iff (is_safe s) (all_safe rs)).0 a).1 e

guarded_of : (p g : Bool) → (not p || g) ≡ true → p ≡ true → g ≡ true
guarded_of true g a e = a
guarded_of false g a e = absurd (true≢false (sym e))

module _ {W : Type 0} (store : Storage W) (machine : Machine W) (signing : Signing) where
  when_passed-true :
      (h k : Handler) (b : Bool) → when_passed store machine signing h b ≡ some k → b ≡ true
  unfolding when_passed
  when_passed-true h k true e = refl
  when_passed-true h k false e = absurd (none≢some k e)

  served_by-Passes :
      (g : Bool) (h k : Handler) (cookie : Option Text) (w : W)
      → g ≡ true
      → (served_by store machine signing g h cookie w).0 ≡ some k
      → Passes store machine signing cookie w
  unfolding served_by
  served_by-Passes false h k cookie w g e = absurd (true≢false (sym g))
  served_by-Passes true h k cookie w g e =
      let b = (require_auth store machine signing cookie w).0 in
      require_auth-Passes store machine signing cookie w (when_passed-true h k b e)

  -- A request on a route of the table reaches a handler that shows or changes the settings, the tokens,
  -- the schedules, the monitors or the history, that sends a test message or runs a monitor, only if
  -- the settings can be read and authentication is off in them, or if it has a cookie whose token is
  -- signed with their secret for their user and expires later than the time that the clock gives next.
  pub served-Passes :
      (i : ℕ) (r : Route) (k : Handler) (cookie : Option Text) (w : W)
      → get_elem? routes i ≡ some r
      → is_private r.handler ≡ true
      → (served store machine signing r cookie w).0 ≡ some k
      → Passes store machine signing cookie w
  unfolding served is_safe
  served-Passes i r k cookie w at p e =
      served_by-Passes r.is_guarded r.handler k cookie w
        (guarded_of (is_private r.handler) r.is_guarded (safe_at routes i r routes_safe at) p) e
