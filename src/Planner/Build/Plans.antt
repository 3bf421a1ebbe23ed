-- ===== src/Planner/Build/Plans.antt =====
-- What internal/application/planner/service.go plans for a text.
use sh_mcp_go.Prelude.{
  ℕ, ◌*◌, ◌≤◌, String, ◌≡◌, ◌≢◌, ap, sym, ◌∙◌, List, [], ◌∷◌, All, length, eq_iff, subst, ok_inj,
  Result-cases, inl, inr, ok, codes, map, arith,
}
use mathlib.Core.List.{Memᴰ}
use sh_mcp_go.Plan.Steps.{install_chart}
use sh_mcp_go.Planner.Intent.{
  AppIntent, Entry, Intent, catalogue, detect, detect_apps, action_of, parse_intent,
}
use sh_mcp_go.Planner.Build.{
  Outside, DeploymentPlan, chart_action, build_steps, plan, estimate_minutes,
}
use sh_mcp_go.Planner.Build.Coverage.{Keeps, IsChartStep, total, build_steps_lem}

-- The applications of a whole catalogue.
abbrev offered : List Entry → List AppIntent
offered [] = []
offered (e ∷ entries) = e.app ∷ offered entries

total-detect-le :
    (intent : List ℕ) (entries : List Entry)
    → total (detect intent entries) ≤ total (offered entries)
unfolding detect
total-detect-le intent [] = omega arith
total-detect-le intent (e ∷ entries) = ground (arith, total-detect-le intent entries)

total-detect_apps-le : (intent : List ℕ) → total (detect_apps intent) ≤ 33
unfolding detect_apps
total-detect_apps-le intent = total-detect-le intent (catalogue intent)

parse_intent-ok :
    (lower_rune : ℕ → ℕ) (intent ns : String) (parsed : Intent)
    → parse_intent lower_rune intent ns ≡ ok parsed
    → let lower = map lower_rune (codes intent) in
      (parsed.apps ≡ detect_apps lower) × (parsed.action ≡ action_of lower)
unfolding parse_intent
parse_intent-ok lower_rune intent ns parsed h = ground arith

-- The parts of a plan.
record Parts (o : Outside) (lower_rune : ℕ → ℕ) (intent ns : String) (d : DeploymentPlan)
    : Type 0 where
  parsed : Intent
  warnings : List String
  parses : parse_intent lower_rune intent ns ≡ ok parsed
  builds : build_steps o parsed ≡ ok (d.steps, warnings)
  minutes : d.estimated_mins ≡ estimate_minutes d.steps

plan-Parts :
    (o : Outside) (lower_rune : ℕ → ℕ) (intent ns : String) (d : DeploymentPlan)
    → plan o lower_rune intent ns ≡ ok d
    → Parts o lower_rune intent ns d
unfolding plan
plan-Parts o lower_rune intent ns d h = elim (Result-cases (parse_intent lower_rune intent ns)) [
  | inr (e, parses) ↦ cc (rw (parses, plan) at h)
  | inl (parsed, parses) ↦ elim (Result-cases (build_steps o parsed)) [
    | inr (e, builds) ↦ cc (rw (parses, plan, builds) at h)
    | inl ((steps, warnings), builds) ↦
        let same = ok_inj (rw (parses, plan, builds) at h) in
        let same_steps : steps ≡ d.steps = ap (λ x. x.steps) same in
        record {
          parsed = parsed;
          warnings = warnings;
          parses = parses;
          builds = builds ∙ ap (λ x. ok (x, warnings)) same_steps;
          minutes = sym (ap (λ x. x.estimated_mins) same) ∙ ap estimate_minutes same_steps;
        }
  ]
]

chart_action_install : (action : String) → action ≢ "upgrade" → chart_action action ≡ install_chart
unfolding chart_action
chart_action_install action other = ground (arith, eq_iff action "upgrade")

-- A text that asks for no upgrade is planned as an installation, also where it asks to uninstall or to
-- roll back: an application that is found in it gets an INSTALL_CHART step for its release, and no
-- step of the plan uninstalls a chart or rolls one back.
pub plan_installs :
    (o : Outside) (lower_rune : ℕ → ℕ) (intent ns : String) (d : DeploymentPlan)
    → plan o lower_rune intent ns ≡ ok d
    → action_of (map lower_rune (codes intent)) ≢ "upgrade"
    → (a : AppIntent) → Memᴰ a (detect_apps (map lower_rune (codes intent)))
    → IsChartStep install_chart a d.steps × All Keeps d.steps
plan_installs o lower_rune intent ns d planned other a m =
    let p = plan-Parts o lower_rune intent ns d planned in
    let (apps, action) = parse_intent-ok lower_rune intent ns p.parsed p.parses in
    let (charts, keeps, _) = build_steps_lem o p.parsed d.steps p.warnings p.builds in
    (
      subst (λ t. IsChartStep t a d.steps)
          (chart_action_install p.parsed.action (λ e. other (sym action ∙ e)))
          (charts a (subst (Memᴰ a) (sym apps) m)),
      keeps,
    )

-- The estimate is two minutes for each step, and at most 68 minutes: it does not wrap.
pub plan-minutes :
    (o : Outside) (lower_rune : ℕ → ℕ) (intent ns : String) (d : DeploymentPlan)
    → plan o lower_rune intent ns ≡ ok d
    → (d.estimated_mins ≡ 2 * length d.steps) × (d.estimated_mins ≤ 68)
unfolding estimate_minutes
plan-minutes o lower_rune intent ns d planned =
    let p = plan-Parts o lower_rune intent ns d planned in
    let (apps, _) = parse_intent-ok lower_rune intent ns p.parsed p.parses in
    let (_, _, count) = build_steps_lem o p.parsed d.steps p.warnings p.builds in
    let bound = total-detect_apps-le (map lower_rune (codes intent)) in
    let few : total p.parsed.apps ≤ 33 = subst (λ l. total l ≤ 33) (sym apps) bound in
    let minutes = p.minutes in (omega arith, omega arith)
