-- ===== src/Monitor/Propagation.antt =====
-- The propagation monitors: when they are content.
use dnsmon.Base.{
  ℕ, suc, ◌+◌, ◌≤◌, ◌<◌, ◌≡◌, refl, ◌↔◌, List, [], ◌∷◌, Text, arith, Bool, true, false, ◌&&◌, ◌==◌,
  ==_iff, ltb, ltb→lt, lt→ltb, All, SameTexts, if◌then◌else◌,
}
use mathlib.Core.Bool.{and-eq-true_iff, false≢true}
use dnsmon.Dns.{Status, ResolverResult}
use dnsmon.Settings.{Monitor, EventStatus}
use dnsmon.Checker.Summary.{Iterate}
use dnsmon.Monitor.{
  Evaluator, answer_values, consensus, set_equal, score_by, score, conclude, evaluate_propagation,
}
use dnsmon.Monitor.Values.{set_equal_iff}

-- Whether a resolver answered, be it that there is no such domain.
abbrev pub responds : Status → Bool
responds Status.ok = true
responds Status.nxdomain = true
responds _ = false

unfoldable pub responding : List ResolverResult → ℕ
responding [] = 0
responding (r ∷ rs) = if responds r.status then suc (responding rs) else responding rs

-- An OK result agrees if it has the expected values, in any order; an answer that there is no such
-- domain does not, and a resolver that did not answer has no say.
abbrev pub AgreesBy : Status → List Text → List Text → Type 0
AgreesBy Status.ok values expected = SameTexts values expected
AgreesBy Status.nxdomain values expected = ⊥
AgreesBy _ values expected = Unit

abbrev pub AllAgree : List Text → List ResolverResult → Type 0
AllAgree expected rs = All (λ r. AgreesBy r.status (answer_values r) expected) rs

score_ok-agrees :
    {P : Type 0}
    → (same : Bool) (s : ℕ × ℕ) → ((same ≡ true) ↔ P)
    → s.1 ≤ s.0
    → let t = score_by Status.ok same s in
      (t.1 ≤ t.0) × ((t.1 ≡ t.0) ↔ ((s.1 ≡ s.0) × P)) × (t.0 ≡ suc s.0)
unfolding score_by
score_ok-agrees true s iff h =
    (omega (arith, h), (λ e. (omega (arith, e), iff.0 refl), λ p. omega (arith, p.0)), omega arith)
score_ok-agrees false s iff h = (
  omega (arith, h),
  (λ e. absurd (omega (arith, e, h)), λ p. absurd (false≢true (iff.1 p.1))),
  omega arith,
)

abbrev Scored : Status → List Text → List Text → ℕ × ℕ → ℕ × ℕ → Type 0
Scored st values expected s t =
    (t.1 ≤ t.0)
    × ((t.1 ≡ t.0) ↔ ((s.1 ≡ s.0) × AgreesBy st values expected))
    × (t.0 ≡ (if responds st then suc s.0 else s.0))

score_by-Scored :
    (st : Status) (values expected : List Text) (s : ℕ × ℕ)
    → s.1 ≤ s.0
    → Scored st values expected s (score_by st (set_equal values expected) s)
score_by-Scored Status.ok values expected s h =
    score_ok-agrees (set_equal values expected) s (set_equal_iff values expected) h
score_by-Scored Status.nxdomain values expected s h =
    unfold score_by in
    (omega (arith, h), (λ e. absurd (omega (arith, e, h)), λ p. absurd p.1), omega arith)
score_by-Scored _ values expected s h = unfold score_by in (h, (λ e. (e, tt), λ p. p.0), refl)

-- The counters after a list of results: all agree exactly if the counters are equal at the end and
-- were so at the start.
score-AllAgree :
    (expected : List Text) (s : ℕ × ℕ) (rs : List ResolverResult)
    → s.1 ≤ s.0
    → let t = score expected s rs in
      ((t.1 ≡ t.0) ↔ ((s.1 ≡ s.0) × AllAgree expected rs)) × (t.0 ≡ s.0 + responding rs)
unfolding score responding
score-AllAgree expected s [] h = ((λ e. (e, tt), λ p. p.0), omega arith)
score-AllAgree expected s (r ∷ rs) h =
    let (bound, iff, count) = score_by-Scored r.status (answer_values r) expected s h in
    let (rest, total) =
      score-AllAgree expected (score_by r.status (set_equal (answer_values r) expected) s) rs
        bound in
    (
      (
        λ e. ((iff.0 (rest.0 e).0).0, ((iff.0 (rest.0 e).0).1, (rest.0 e).1)),
        λ p. rest.1 (iff.1 (p.0, p.1.0), p.1.1),
      ),
      ground (arith, total, count),
    )

verdict_iff :
    {W : Type 0}
    → (e : Evaluator W) (m : Monitor) (observed : List Text) (s : ℕ × ℕ) (good : Bool) (w : W)
    → ((conclude e m observed s good w).0.1.status ≡ EventStatus.ok) ↔ (good ≡ true)
unfolding conclude
verdict_iff e m observed s true w = (λ h. refl, λ h. refl)
verdict_iff e m observed s false w = (λ h. cc, λ h. cc)

-- A propagation monitor is content exactly if some resolver responded and all that did gave the
-- expected values, as often as expected and in any order; that there is no such domain is a response
-- without them, and timeouts and errors do not count.
pub evaluate_propagation-ok_iff :
    {W : Type 0}
    → (e : Evaluator W) (iterate : Iterate) (m : Monitor) (results : List ResolverResult) (w : W)
    → ((evaluate_propagation e iterate m results w).0.1.status ≡ EventStatus.ok)
      ↔ ((0 < responding results) × AllAgree m.expected results)
unfolding evaluate_propagation
evaluate_propagation-ok_iff e iterate m results w =
    let s = score m.expected (0, 0) results in
    let (agree, total) = score-AllAgree m.expected (0, 0) results (omega arith) in
    let both = and-eq-true_iff (ltb 0 s.0) (s.1 == s.0) in
    let good = verdict_iff e m (consensus iterate results) s (ltb 0 s.0 && s.1 == s.0) w in
    (
      λ h.
          let (some_one, equal) = both.0 (good.0 h) in
          (omega (arith, total, ltb→lt _ _ some_one), (agree.0 ((==_iff s.1 s.0).0 equal)).1),
      λ h. good.1 (
          both.1
            (lt→ltb _ _ (omega (arith, total, h.0)), (==_iff s.1 s.0).1 (agree.1 (refl, h.1)))),
    )
