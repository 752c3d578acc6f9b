-- ===== src/Monitor/Drift.antt =====
-- The change monitors: when they report a change, and what they compare with afterwards.
use dnsmon.Base.{
  ◌≡◌, ◌≢◌, refl, sym, ap, ◌∙◌, ◌↔◌, List, [], ◌∷◌, Text, Bool, true, false, is_empty, SameTexts,
  count_text,
}
use mathlib.Core.Bool.{false≢true}
use dnsmon.Dns.{ResolverResult}
use dnsmon.Settings.{Monitor, EventStatus}
use dnsmon.Checker.Summary.{Iterate}
use dnsmon.Monitor.{Evaluator, Verdict, consensus, set_equal, drift, evaluate_change}
use dnsmon.Monitor.Values.{set_equal_iff, length-of-SameTexts}

SameTexts-refl : (xs : List Text) → SameTexts xs xs
SameTexts-refl xs k = refl

ok≢changed : ¬ (EventStatus.ok ≡ EventStatus.changed)
ok≢changed e = cc

is_empty_iff : (xs : List Text) → (is_empty xs ≡ false) ↔ (xs ≢ [])
is_empty_iff [] = (λ e. cc, λ n. absurd (n refl))
is_empty_iff (x ∷ xs) = (λ e n. cc, λ n. refl)

refuted_iff : {P : Type 0} → (b : Bool) → ((b ≡ true) ↔ P) → (b ≡ false) ↔ ¬ P
refuted_iff true iff = (λ e. cc, λ n. absurd (n (iff.0 refl)))
refuted_iff false iff = (λ e p. absurd (false≢true (iff.1 p)), λ n. refl)

nil-of-SameTexts : (xs : List Text) → SameTexts [] xs → xs ≡ []
nil-of-SameTexts [] same = refl
nil-of-SameTexts (x ∷ xs) same = cc (length-of-SameTexts [] (x ∷ xs) same)

module _ {W : Type 0} (e : Evaluator W) where
  -- Afterwards the values to compare with are those that were observed, and the event has these.
  drift-expected :
      (m : Monitor) (observed : List Text) (fresh same : Bool) (w : W)
      → set_equal observed m.expected ≡ same
      → let once = (drift e m observed fresh same w).0 in
        SameTexts observed once.0.expected × (once.1.observed ≡ observed)
  unfolding drift
  drift-expected m observed true same w h = (λ k. refl, refl)
  drift-expected m observed false false w h = (λ k. refl, refl)
  drift-expected m observed false true w h = ((set_equal_iff observed m.expected).0 h, refl)

  -- The event is OK and not notified, and neither the monitor nor the world has changed.
  abbrev pub IsQuiet : Monitor → W → (Monitor × Verdict) × W → Type 0
  IsQuiet m w (judged, after) =
      (judged.1.status ≡ EventStatus.ok)
      × (judged.1.notified ≡ false)
      × (judged.0 ≡ m)
      × (after ≡ w)

  -- The event is OK and not notified, and all that is done is to read the clock and to save the
  -- monitor that comes back, with its new expected values and the time.
  abbrev pub IsCaptured : Monitor → List Text → W → (Monitor × Verdict) × W → Type 0
  IsCaptured m observed w (judged, after) =
      (judged.1.status ≡ EventStatus.ok)
      × (judged.1.notified ≡ false)
      × (judged.0 ≡ record m { expected = observed; updated_at = (e.machine.now w).0 })
      × (after ≡ (e.store.save_monitor judged.0 (e.machine.now w).1).1)

  drift-IsCaptured :
      (m : Monitor) (observed : List Text) (fresh same : Bool) (w : W)
      → fresh ≡ true
      → IsCaptured m observed w (drift e m observed fresh same w)
  unfolding drift
  drift-IsCaptured m observed true same w h = (refl, refl, refl, refl)
  drift-IsCaptured m observed false same w h = absurd (false≢true h)

  drift-changed_iff :
      (m : Monitor) (observed : List Text) (fresh same : Bool) (w : W)
      → ((drift e m observed fresh same w).0.1.status ≡ EventStatus.changed)
        ↔ ((fresh ≡ false) × (same ≡ false))
  unfolding drift
  drift-changed_iff m observed true same w = (λ h. absurd (ok≢changed h), λ h. cc)
  drift-changed_iff m observed false false w = (λ h. (refl, refl), λ h. refl)
  drift-changed_iff m observed false true w = (λ h. absurd (ok≢changed h), λ h. cc)

  -- A change monitor reports a change exactly where it has expected values and the observed ones
  -- differ from them by more than their order.
  pub evaluate_change-changed_iff :
      (iterate : Iterate) (m : Monitor) (results : List ResolverResult) (w : W)
      → ((evaluate_change e iterate m results w).0.1.status ≡ EventStatus.changed)
        ↔ ((m.expected ≢ []) × ¬ SameTexts (consensus iterate results) m.expected)
  unfolding evaluate_change
  evaluate_change-changed_iff iterate m results w =
      let observed = consensus iterate results in
      let (to, from) =
        drift-changed_iff m observed (is_empty m.expected) (set_equal observed m.expected) w in
      let (filled, nil) = is_empty_iff m.expected in
      let (differs, differ) =
        refuted_iff (set_equal observed m.expected) (set_equal_iff observed m.expected) in
      (λ h. (filled (to h).0, differs (to h).1), λ h. from (nil h.0, differ h.1))

  -- An empty observation is taken for a baseline that is still missing: after it, the next evaluation
  -- is OK whatever values it observes, and only saves these as the expected ones; nobody is notified.
  pub evaluate_change-forgets :
      (iterate : Iterate) (m : Monitor) (results later : List ResolverResult) (w w' : W)
      → consensus iterate results ≡ []
      → let once = (evaluate_change e iterate m results w).0 in
        IsCaptured once.0 (consensus iterate later) w' (evaluate_change e iterate once.0 later w')
  unfolding evaluate_change
  evaluate_change-forgets iterate m results later w w' h =
      let observed = consensus iterate results in
      let once = (drift e m observed (is_empty m.expected) (set_equal observed m.expected) w).0 in
      let (same, seen) =
        drift-expected m observed (is_empty m.expected) (set_equal observed m.expected) w refl in
      let gone : once.0.expected ≡ [] =
        nil-of-SameTexts once.0.expected (λ k. ap (count_text k) (sym h) ∙ same k) in
      drift-IsCaptured once.0 (consensus iterate later) (is_empty once.0.expected) _ w'
        (ap is_empty gone)
