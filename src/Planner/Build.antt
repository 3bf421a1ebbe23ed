-- ===== src/Planner/Build.antt =====
-- internal/application/planner/service.go: the steps of a plan.
pub mod Order
pub mod Progress
pub mod Coverage
pub mod Plans
use sh_mcp_go.Prelude.{
  ℕ, suc, fields, ◌*◌, ◌%◌, ◌^◌, String, Bool, true, false, not, ◌||◌, ◌&&◌, Option, none, some,
  List, [], ◌∷◌, ◌++◌, Any, insert, Result, ok, err, concat, length, if◌then◌else◌, ◌==◌,
}
use sh_mcp_go.Plan.Steps.{
  StepType, create_namespace, install_crds, install_chart, upgrade_chart, rollback_chart,
  validate_readiness, configure_ingress, configure_storage, Params, Step, new_step,
}
use sh_mcp_go.Planner.Intent.{
  AppIntent, Intent, PlanningError, invalid_cluster, parsing_intent, building_steps, parse_intent,
}

-- `cluster.ValidationResult`, without its time.
pub record ValidationResult : Type 0 where
  pub valid : Bool
  pub errors : List String
  pub warnings : List String

-- The calls of `uuid.New`, by the step that gets the id.
pub data Role : Type 0 where
  namespace : Role
  validate storage install ingress health rollback : (app : ℕ) → Role

-- What the planner calls: the answers of the Kubernetes and Helm ports, by the application that they
-- are asked for, the generated ids, and the texts of `%q`, of `cases.Title` and of an error.
pub record Outside : Type 1 where
  pub Failure : Type 0
  pub failure_text : Failure → String
  pub quote : String → String
  pub title : String → String
  pub fresh_id : Role → String
  pub plan_id : String
  pub validate_cluster : Result Failure ValidationResult
  pub resolve_version :
      (app : ℕ) → (chart_name repo_url constraint : String) → Result Failure String

-- `haReplicaCount` and `minutesPerStep`.
abbrev ha_replica_count : ℕ
ha_replica_count = 3

abbrev minutes_per_step : ℕ
minutes_per_step = 2

-- `append(steps, step)` under an `if`.
abbrev pub optional : Bool → Step → List Step → List Step
optional true s rest = s ∷ rest
optional false s rest = rest

-- The type of the chart step for an action.
unfoldable pub chart_action : (action : String) → StepType
chart_action action = if action == "upgrade" then upgrade_chart else install_chart

abbrev or_empty : Option Params → Params
or_empty none = []
or_empty (some values) = values

-- The values of the chart step.
unfoldable pub chart_values : AppIntent → Params
chart_values app =
    let values = or_empty app.values in
    let scaled =
      if app.ha then insert "replicaCount" (Any.int ha_replica_count) values else values in
    if app.persistence then insert "persistence.enabled" (Any.bool true) scaled else scaled

-- `DeploymentPlan`, with the intent and the steps of its rollback plan, which has nothing else.
pub record DeploymentPlan : Type 0 where
  pub plan_id : String
  pub intent : String
  pub steps : List Step
  pub rollback_intent : String
  pub rollback_steps : List Step
  pub warnings : List String
  pub estimated_mins : ℕ

-- `estimateMinutes`, as an `int`.
unfoldable pub estimate_minutes : List Step → ℕ
estimate_minutes steps = length steps * minutes_per_step % 2 ^ 64

module _ (o : Outside) where
  open o use {failure_text, quote, title, fresh_id, plan_id, validate_cluster, resolve_version}

  -- The version of an application's chart, and the warnings from resolving it.
  unfoldable pub chart_version : (i : ℕ) → AppIntent → String × List String
  chart_version i app =
      if app.version == "" || app.version == "latest"
      then elim (resolve_version i app.chart_name app.repo_url "") [
        | ok resolved ↦ (resolved, [])
        | err e ↦ (
          app.version,
          concat ("could not resolve version for " ∷ app.chart_name ∷ ": " ∷ failure_text e ∷ [])
              ∷ [],
        )
      ]
      else (app.version, [])

  unfoldable pub namespace_step : Intent → Step
  unfolding new_step
  namespace_step intent =
      new_step (fresh_id namespace) create_namespace
        (concat ("Create namespace " ∷ quote intent.namespace ∷ []))
        (("namespace", Any.str intent.namespace) ∷ []) []

  unfoldable pub validate_step : (i : ℕ) → AppIntent → (version : String) → Step
  unfolding new_step
  validate_step i app version =
      new_step (fresh_id (validate i)) install_crds
        (concat ("Validate chart " ∷ app.chart_name ∷ "@" ∷ version ∷ []))
        (("chart", Any.str app.chart_name)
          ∷ ("repo", Any.str app.repo_url)
          ∷ ("version", Any.str version)
          ∷ [])
        (fresh_id namespace ∷ [])

  unfoldable pub storage_step : (i : ℕ) → Intent → AppIntent → Step
  unfolding new_step
  storage_step i intent app =
      new_step (fresh_id (storage i)) configure_storage
        (concat ("Configure persistent storage for " ∷ app.name ∷ []))
        (("namespace", Any.str intent.namespace) ∷ ("app", Any.str app.name) ∷ [])
        (fresh_id (validate i) ∷ [])

  -- `storageStepID`, the empty string where there is no storage step.
  abbrev pub storage_step_id : (i : ℕ) → AppIntent → String
  storage_step_id i app = if app.persistence then fresh_id (storage i) else ""

  abbrev pub install_depends_on : (i : ℕ) → AppIntent → List String
  install_depends_on i app =
      if not (storage_step_id i app == "")
      then fresh_id (validate i) ∷ storage_step_id i app ∷ []
      else fresh_id (validate i) ∷ []

  unfoldable pub install_step : (i : ℕ) → Intent → AppIntent → (version : String) → Step
  unfolding new_step chart_action chart_values
  install_step i intent app version =
      new_step (fresh_id (install i)) (chart_action intent.action)
        (concat (
          title intent.action
          ∷ " "
          ∷ app.chart_name
          ∷ "@"
          ∷ version
          ∷ " in "
          ∷ intent.namespace
          ∷ []))
        (("release_name", Any.str app.name)
          ∷ ("namespace", Any.str intent.namespace)
          ∷ ("chart", Any.str app.chart_name)
          ∷ ("repo", Any.str app.repo_url)
          ∷ ("version", Any.str version)
          ∷ ("values", Any.object (fields (chart_values app)))
          ∷ [])
        (install_depends_on i app)

  unfoldable pub ingress_step : (i : ℕ) → Intent → AppIntent → Step
  unfolding new_step
  ingress_step i intent app =
      new_step (fresh_id (ingress i)) configure_ingress
        (concat ("Configure ingress for " ∷ app.name ∷ []))
        (("namespace", Any.str intent.namespace) ∷ ("app", Any.str app.name) ∷ [])
        (fresh_id (install i) ∷ [])

  unfoldable pub health_step : (i : ℕ) → Intent → AppIntent → Step
  unfolding new_step
  health_step i intent app =
      new_step (fresh_id (health i)) validate_readiness
        (concat ("Validate readiness of " ∷ app.name ∷ []))
        (("release_name", Any.str app.name) ∷ ("namespace", Any.str intent.namespace) ∷ [])
        (fresh_id (install i) ∷ [])

  -- The steps that one round of the loop appends.
  unfoldable pub app_steps : (i : ℕ) → Intent → AppIntent → (version : String) → List Step
  unfolding validate_step storage_step install_step ingress_step health_step
  app_steps i intent app version =
      validate_step i app version
      ∷ optional app.persistence (storage_step i intent app) (
          install_step i intent app version
          ∷ optional app.ingress (ingress_step i intent app) (health_step i intent app ∷ []))

  -- The loop over the applications, from number `i` on: the steps and the warnings.
  unfoldable pub apps_steps : (i : ℕ) → Intent → List AppIntent → List Step × List String
  unfolding app_steps chart_version
  apps_steps i intent [] = ([], [])
  apps_steps i intent (app ∷ apps) =
      let (version, warnings) = chart_version i app in
      let (steps, more) = apps_steps (suc i) intent apps in
      (app_steps i intent app version ++ steps, warnings ++ more)

  -- `buildSteps`.
  unfoldable pub build_steps : Intent → Result PlanningError (List Step × List String)
  build_steps intent =
      let (steps, warnings) = apps_steps 0 intent intent.apps in
      elim validate_cluster [
        | err e ↦ ok (
          namespace_step intent ∷ steps,
          concat ("cluster validation warning: " ∷ failure_text e ∷ []) ∷ warnings,
        )
        | ok result ↦
            if not result.valid
            then err (invalid_cluster result.errors)
            else ok (namespace_step intent ∷ steps, warnings)
      ]

  unfoldable pub rollback_steps : (i : ℕ) → (namespace : String) → List AppIntent → List Step
  unfolding new_step
  rollback_steps i ns [] = []
  rollback_steps i ns (app ∷ apps) =
      new_step (fresh_id (rollback i)) rollback_chart
        (concat ("Rollback " ∷ app.name ∷ " to previous version" ∷ []))
        (("release_name", Any.str app.name)
          ∷ ("namespace", Any.str ns)
          ∷ ("version", Any.int 0)
          ∷ [])
        []
      ∷ rollback_steps (suc i) ns apps

  -- `Service.Plan`.
  unfoldable pub plan :
      (lower_rune : ℕ → ℕ) → (intent ns : String) → Result PlanningError DeploymentPlan
  unfolding parse_intent build_steps apps_steps namespace_step rollback_steps estimate_minutes
  plan lower_rune intent ns = elim (parse_intent lower_rune intent ns) [
    | err e ↦ err (parsing_intent e)
    | ok parsed ↦ elim (build_steps parsed) [
      | err e ↦ err (building_steps e)
      | ok (steps, warnings) ↦ ok (record {
        plan_id = plan_id;
        intent = intent;
        steps = steps;
        rollback_intent = concat ("rollback: " ∷ parsed.namespace ∷ []);
        rollback_steps = rollback_steps 0 parsed.namespace parsed.apps;
        warnings = warnings;
        estimated_mins = estimate_minutes steps;
      })
    ]
  ]
