-- ===== src/Monitor/Alerts.antt =====
-- The notifications of a run.
use dnsmon.Base.{
  ℕ, ◌≡◌, refl, ◌⊎◌, inl, inr, List, [], ◌∷◌, Option, none, some, Text, Bool, true, false, text_eq,
  text_eq_iff, ◌&&◌, is_empty, if◌then◌else◌, Bool-cases, ltb, ◌==◌,
}
use mathlib.Core.Bool.{and-eq-true_iff}
use mathlib.Core.List.{Memᴰ}
use dnsmon.Dns.{ResolverResult}
use dnsmon.Dns as Dns
use dnsmon.Settings.{NotificationChannel, Settings, Monitor, EventStatus}
use dnsmon.World.{Result, ok, err}
use dnsmon.Settings.Ids.{new_id}
use dnsmon.Checker.Summary.{Iterate}
use dnsmon.Monitor.{
  Evaluator, pick_channel, is_sent, deliver, notify_with, maybe_notify, drift, conclude, evaluate,
  evaluate_change, evaluate_propagation, run, check_of, score, consensus,
}

-- An enabled channel with the id.
abbrev pub Chosen : Text → List NotificationChannel → Option NotificationChannel → Type 0
Chosen id cs none = Unit
Chosen id cs (some c) = Memᴰ c cs × (c.id ≡ id) × (c.enabled ≡ true)

Chosen-tail :
    (id : Text) (d : NotificationChannel) (cs : List NotificationChannel)
    (o : Option NotificationChannel)
    → Chosen id cs o
    → Chosen id (d ∷ cs) o
Chosen-tail id d cs none h = tt
Chosen-tail id d cs (some c) h = (Memᴰ.tail h.0, h.1, h.2)

pick_channel-Chosen :
    (id : Text) (cs : List NotificationChannel) → Chosen id cs (pick_channel id cs)
unfolding pick_channel
pick_channel-Chosen id [] = tt
pick_channel-Chosen id (c ∷ cs) = elim (Bool-cases (text_eq c.id id && c.enabled)) [
  | inl h ↦
      let both = (and-eq-true_iff (text_eq c.id id) c.enabled).0 h in
      rw h (Memᴰ.head refl, (text_eq_iff c.id id).0 both.0, both.1)
  | inr h ↦ rw h (Chosen-tail id c cs (pick_channel id cs) (pick_channel-Chosen id cs))
]

module _ {W : Type 0} (e : Evaluator W) where
  -- A message went out to a channel of the settings that has the id and is enabled.
  pub record WasSent (id message : Text) : Type 0 where
    pub channel : NotificationChannel
    pub settings : Settings
    pub read_in : W
    pub sent_in : W
    pub read : (e.store.get_settings read_in).0 ≡ ok settings
    pub chosen : Chosen id settings.notifications (some channel)
    pub sent : (e.send channel message sent_in).0 ≡ ok tt

  is_sent-ok : (r : Result (Unit {0})) → is_sent r ≡ true → r ≡ ok tt
  is_sent-ok (ok u) h = refl
  is_sent-ok (err x) h = cc

  deliver-WasSent :
      (id message : Text) (s : Settings) (v w : W) (o : Option NotificationChannel)
      → (e.store.get_settings v).0 ≡ ok s
      → Chosen id s.notifications o
      → (deliver e message o w).0 ≡ true
      → WasSent id message
  unfolding deliver
  deliver-WasSent id message s v w none r c h = cc
  deliver-WasSent id message s v w (some d) r c h = record {
    channel = d;
    settings = s;
    read_in = v;
    sent_in = w;
    read = r;
    chosen = c;
    sent = is_sent-ok _ h;
  }

  notify_with-WasSent :
      (id message : Text) (v w : W) (x : Result Settings)
      → (e.store.get_settings v).0 ≡ x
      → (notify_with e id message x w).0 ≡ true
      → WasSent id message
  unfolding notify_with
  notify_with-WasSent id message v w (err x) r h = cc
  notify_with-WasSent id message v w (ok s) r h =
      deliver-WasSent id message s v w (pick_channel id s.notifications) r
        (pick_channel-Chosen id s.notifications) h

  maybe_notify-WasSent :
      (id message : Text) (w : W) → (maybe_notify e id message w).0 ≡ true → WasSent id message
  unfolding maybe_notify
  maybe_notify-WasSent [] message w h = cc
  maybe_notify-WasSent (b ∷ id) message w h =
      notify_with-WasSent (b ∷ id) message w (e.store.get_settings w).1 (e.store.get_settings w).0
        refl h

  -- What a notification says of an event.
  abbrev pub IsAlert : Monitor → EventStatus → Type 0
  IsAlert m st =
      ((st ≡ EventStatus.changed) ⊎ (st ≡ EventStatus.not_propagated))
      × ((message : Text) × WasSent m.channel_id message)

  drift-IsAlert :
      (m : Monitor) (observed : List Text) (fresh same : Bool) (w : W)
      → let v = (drift e m observed fresh same w).0.1 in v.notified ≡ true → IsAlert m v.status
  unfolding drift
  drift-IsAlert m observed true same w h = cc
  drift-IsAlert m observed false false w h =
      (inl refl, (_, maybe_notify-WasSent m.channel_id _ _ h))
  drift-IsAlert m observed false true w h = cc

  conclude-IsAlert :
      (m : Monitor) (observed : List Text) (s : ℕ × ℕ) (good : Bool) (w : W)
      → let v = (conclude e m observed s good w).0.1 in v.notified ≡ true → IsAlert m v.status
  unfolding conclude
  conclude-IsAlert m observed s true w h = cc
  conclude-IsAlert m observed s false w h = (inr refl, (_, maybe_notify-WasSent m.channel_id _ _ h))

  judge-IsAlert :
      (iterate : Iterate) (m : Monitor) (results : List ResolverResult) (is_change : Bool) (w : W)
      → let v =
          ((if is_change
              then evaluate_change e iterate m results
              else evaluate_propagation e iterate m results)
            w).0.1 in
        v.notified ≡ true → IsAlert m v.status
  unfolding evaluate_change evaluate_propagation
  judge-IsAlert iterate m results true w h =
      drift-IsAlert m (consensus iterate results) (is_empty m.expected) _ w h
  judge-IsAlert iterate m results false w h =
      let s = score m.expected (0, 0) results in
      conclude-IsAlert m (consensus iterate results) s (ltb 0 s.0 && s.1 == s.0) w h

  evaluate-IsAlert :
      (iterate : Iterate) (m : Monitor) (x : Result Dns.Check) (w : W)
      → let v = (evaluate e iterate m x w).0.1 in v.notified ≡ true → IsAlert m v.status
  unfolding evaluate
  evaluate-IsAlert iterate m (err x) w h = cc
  evaluate-IsAlert iterate m (ok ck) w h = judge-IsAlert iterate m ck.results _ w h

  -- The event of a run is marked as notified only if it reports a change or a missing propagation,
  -- and a message was sent without error to a channel of the settings that has the monitor's channel
  -- id and is enabled.
  pub run-IsAlert :
      (iterate : Iterate) (m : Monitor) (w : W)
      → let ev = (run e iterate m w).0.1 in ev.notified ≡ true → IsAlert m ev.status
  unfolding run
  run-IsAlert iterate m w h =
      let (now, w₂) = e.machine.now (new_id e.machine w).1 in
      let (answer, w₃) = e.check (check_of m) w₂ in evaluate-IsAlert iterate m answer w₃ h
