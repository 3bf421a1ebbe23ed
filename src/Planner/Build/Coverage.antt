-- ===== src/Planner/Build/Coverage.antt =====
-- Which steps internal/application/planner/service.go builds for an intent, and how many.
use sh_mcp_go.Prelude.{
  ℕ, suc, ◌+◌, String, ◌≡◌, ◌≢◌, refl, ap, sym, ◌∙◌, Bool, true, false, some, List, [], ◌∷◌, ◌++◌,
  All, All-append, length, length-append, Any, lookup, ok, arith, if◌then◌else◌,
}
use mathlib.Core.List.{Memᴰ}
use mathlib.Core.List.Memᴰ
use sh_mcp_go.Plan.Steps.{Step, StepType, uninstall_chart, rollback_chart}
use sh_mcp_go.Planner.Intent.{AppIntent, Intent}
use sh_mcp_go.Planner.Build.{
  Outside, optional, chart_action, chart_version, install_step, app_steps, apps_steps, build_steps,
  namespace_step,
}
use sh_mcp_go.Planner.Build.Order.{build_steps-ok}

-- A step that neither uninstalls a chart nor rolls one back.
abbrev pub Keeps : Step → Type 0
Keeps s = (s.step_type ≢ uninstall_chart) × (s.step_type ≢ rollback_chart)

-- The step of that type for the application's release.
pub record IsChartStep (action : StepType) (a : AppIntent) (steps : List Step) : Type 0 where
  pub step : Step
  pub listed : Memᴰ step steps
  pub typed : step.step_type ≡ action
  pub released : lookup "release_name" step.params ≡ some (Any.str a.name)

mem-optional :
    {s : Step} (b : Bool) (t : Step) (rest : List Step) → Memᴰ s rest → Memᴰ s (optional b t rest)
mem-optional true t rest m = Memᴰ.tail m
mem-optional false t rest m = m

All-optional :
    (P : Step → Type 0) (b : Bool) (t : Step) (rest : List Step)
    → P t
    → All P rest
    → All P (optional b t rest)
All-optional P true t rest h k = (h, k)
All-optional P false t rest h k = k

length-optional :
    (b : Bool) (t : Step) (rest : List Step)
    → length (optional b t rest) ≡ (if b then 1 else 0) + length rest
length-optional b t rest = ground arith

chart_action-keeps :
    (action : String)
    → (chart_action action ≢ uninstall_chart) × (chart_action action ≢ rollback_chart)
unfolding chart_action
chart_action-keeps action = (λ h. ground arith, λ h. ground arith)

-- How many steps an application gets.
abbrev pub weight : AppIntent → ℕ
weight a = (if a.persistence then 1 else 0) + (if a.ingress then 1 else 0) + 3

abbrev pub total : List AppIntent → ℕ
total [] = 0
total (a ∷ apps) = weight a + total apps

module _ (o : Outside) where
  app_steps-Keeps :
      (i : ℕ) (intent : Intent) (a : AppIntent) (version : String)
      → All Keeps (app_steps o i intent a version)
  unfolding app_steps
  app_steps-Keeps i intent a version = (
    ((λ h. cc), (λ h. cc)),
    All-optional Keeps a.persistence _ _ ((λ h. cc), (λ h. cc))
        (
          chart_action-keeps intent.action,
          All-optional Keeps a.ingress _ _ ((λ h. cc), (λ h. cc)) (((λ h. cc), (λ h. cc)), tt),
        ),
  )

  app_steps-chart :
      (i : ℕ) (intent : Intent) (a : AppIntent) (version : String)
      → IsChartStep (chart_action intent.action) a (app_steps o i intent a version)
  unfolding app_steps lookup
  app_steps-chart i intent a version = record {
    step = install_step o i intent a version;
    listed = Memᴰ.tail (mem-optional a.persistence _ _ (Memᴰ.head refl));
    typed = refl;
    released = refl;
  }

  length-app_steps :
      (i : ℕ) (intent : Intent) (a : AppIntent) (version : String)
      → length (app_steps o i intent a version) ≡ weight a
  unfolding app_steps
  length-app_steps i intent a version = ground arith

  IsChartStep-append :
      {action : StepType} {a : AppIntent} (xs ys : List Step)
      → IsChartStep action a ys
      → IsChartStep action a (xs ++ ys)
  IsChartStep-append xs ys c = record {
    step = c.step;
    listed = Memᴰ.append_right xs c.listed;
    typed = c.typed;
    released = c.released;
  }

  apps_steps-Keeps :
      (i : ℕ) (intent : Intent) (apps : List AppIntent) → All Keeps (apps_steps o i intent apps).0
  unfolding apps_steps
  apps_steps-Keeps i intent [] = tt
  apps_steps-Keeps i intent (a ∷ apps) =
      All-append Keeps (app_steps o i intent a (chart_version o i a).0) _
        (app_steps-Keeps i intent a (chart_version o i a).0) (apps_steps-Keeps (suc i) intent apps)

  apps_steps-chart :
      (i : ℕ) (intent : Intent) (apps : List AppIntent) (a : AppIntent)
      → Memᴰ a apps
      → IsChartStep (chart_action intent.action) a (apps_steps o i intent apps).0
  unfolding apps_steps
  apps_steps-chart i intent [] a m = elim m [ ]
  apps_steps-chart i intent (b ∷ apps) a (Memᴰ.head e) =
      let c = app_steps-chart i intent b (chart_version o i b).0 in
      record {
        step = c.step;
        listed = Memᴰ.append_left (apps_steps o (suc i) intent apps).0 c.listed;
        typed = c.typed;
        released = c.released ∙ ap (λ x. some (Any.str x.name)) (sym e);
      }
  apps_steps-chart i intent (b ∷ apps) a (Memᴰ.tail m) =
      IsChartStep-append (app_steps o i intent b (chart_version o i b).0) _
        (apps_steps-chart (suc i) intent apps a m)

  length-apps_steps :
      (i : ℕ) (intent : Intent) (apps : List AppIntent)
      → length (apps_steps o i intent apps).0 ≡ total apps
  unfolding apps_steps
  length-apps_steps i intent [] = refl
  length-apps_steps i intent (a ∷ apps) = omega (
    arith,
    length-append (app_steps o i intent a (chart_version o i a).0)
        (apps_steps o (suc i) intent apps).0,
    length-app_steps i intent a (chart_version o i a).0,
    length-apps_steps (suc i) intent apps,
  )

  namespace_step-Keeps : (intent : Intent) → Keeps (namespace_step o intent)
  unfolding namespace_step
  namespace_step-Keeps intent = ((λ h. cc), (λ h. cc))

  -- Every application gets a chart step, of the type for the action, and no step of the plan uninstalls
  -- a chart or rolls one back; there is one step for the namespace, and three for each application, with
  -- one more for storage and one more for ingress where it wants them.
  pub build_steps_lem :
      (intent : Intent) (steps : List Step) (warnings : List String)
      → build_steps o intent ≡ ok (steps, warnings)
      → ((a : AppIntent) → Memᴰ a intent.apps → IsChartStep (chart_action intent.action) a steps)
        × All Keeps steps
        × (length steps ≡ 1 + total intent.apps)
  build_steps_lem intent steps warnings h =
      let e = build_steps-ok o intent h in
      (
        λ a m. rw e (
            IsChartStep-append (namespace_step o intent ∷ []) (apps_steps o 0 intent intent.apps).0
              (apps_steps-chart 0 intent intent.apps a m)),
        rw e (namespace_step-Keeps intent, apps_steps-Keeps 0 intent intent.apps),
        rw e (omega (arith, length-apps_steps 0 intent intent.apps)),
      )
