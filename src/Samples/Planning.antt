-- ===== src/Samples/Planning.antt =====
-- A request for nginx: the theorems on internal/application/planner at concrete inputs.
use sh_mcp_go.Prelude.{
  ℕ, ◌*◌, ◌≤◌, String, ◌≡◌, ◌≢◌, inl, refl, true, false, none, err, List, [], ◌∷◌, All, length, map,
  ok, codes,
}
use mathlib.Core.List.{Memᴰ}
use sh_mcp_go.Plan.Steps.{Step, install_chart}
use sh_mcp_go.Plan.Entity.{new_plan, ready_steps}
use sh_mcp_go.Plan.Lifecycle.{run}
use sh_mcp_go.Plan.Progress.{IsOrdered}
use sh_mcp_go.Planner.Intent.{AppIntent, Intent, catalogue, detect_apps, action_of}
use sh_mcp_go.Planner.Intent.Detection.{IsDetected, mem-detect_apps}
use sh_mcp_go.Planner.Build
use sh_mcp_go.Planner.Build.{
  Role, Outside, ValidationResult, DeploymentPlan, build_steps, plan, estimate_minutes,
}
use sh_mcp_go.Planner.Build.Order.{build_steps-IsOrdered}
use sh_mcp_go.Planner.Build.Progress.{build_steps_progress}
use sh_mcp_go.Planner.Build.Coverage.{IsChartStep, Keeps}
use sh_mcp_go.Planner.Build.Plans.{plan_installs, plan-minutes}

abbrev role_id : Role → String
role_id Role.namespace = "ns"
role_id (Role.validate _) = "validate"
role_id (Role.storage _) = "storage"
role_id (Role.install _) = "install"
role_id (Role.ingress _) = "ingress"
role_id (Role.health _) = "health"
role_id (Role.rollback _) = "rollback"

-- A cluster that is valid and a repository with one version.
abbrev answers : Outside
answers = record {
  Failure = String;
  failure_text = λ e. e;
  quote = λ s. s;
  title = λ s. s;
  fresh_id = role_id;
  plan_id = "plan";
  validate_cluster = ok (record { valid = true; errors = []; warnings = [] });
  resolve_version = λ _ _ _ _. ok "1.2.3";
}

abbrev same_rune : ℕ → ℕ
same_rune c = c

-- A text that asks to uninstall.
abbrev text : String
text = "uninstall nginx"

abbrev lower : List ℕ
lower = map same_rune (codes text)

abbrev nginx : AppIntent
nginx = record {
  name = "ingress-nginx";
  chart_name = "ingress-nginx";
  repo_url = "https://kubernetes.github.io/ingress-nginx";
  version = "";
  values = none;
  persistence = false;
  ingress = false;
  ha = false;
}

abbrev parsed : Intent
parsed = record { action = "uninstall"; apps = nginx ∷ []; namespace = "default" }

abbrev built : List Step × List String
unfolding build_steps
built = elim (build_steps answers parsed) [ ok r ↦ r | err _ ↦ ([], []) ]

built_ok : build_steps answers parsed ≡ ok (built.0, built.1)
unfolding build_steps
built_ok = refl

build_steps-IsOrdered_example : IsOrdered [] built.0
build_steps-IsOrdered_example = build_steps-IsOrdered answers parsed built_ok

build_steps_progress_example :
    (t : Step) × Memᴰ t (ready_steps (run [] (new_plan "p" 1 text built.0)))
unfolding new_plan run built Build.namespace_step Build.apps_steps
build_steps_progress_example =
    build_steps_progress answers parsed built.0 built.1 built_ok "p" 1 text []
      (inl refl, (inl refl, (inl refl, (inl refl, tt)))) _ (Memᴰ.head refl) refl

abbrev planned : DeploymentPlan
unfolding plan
planned = elim (plan answers same_rune text "") [
  | ok d ↦ d
  | err _ ↦ record {
    plan_id = "";
    intent = "";
    steps = [];
    rollback_intent = "";
    rollback_steps = [];
    warnings = [];
    estimated_mins = 0;
  }
]

planned_ok : plan answers same_rune text "" ≡ ok planned
unfolding plan
planned_ok = refl

uninstalls : action_of lower ≢ "upgrade"
unfolding action_of
uninstalls h = cc

found : Memᴰ nginx (detect_apps lower)
unfolding detect_apps
found = Memᴰ.head refl

plan_installs_example : IsChartStep install_chart nginx planned.steps × All Keeps planned.steps
plan_installs_example =
    plan_installs answers same_rune text "" planned planned_ok uninstalls nginx found

plan-minutes_example :
    (planned.estimated_mins ≡ 2 * length planned.steps) × (planned.estimated_mins ≤ 68)
plan-minutes_example = plan-minutes answers same_rune text "" planned planned_ok

mem-detect_apps_example : IsDetected lower (catalogue lower) nginx
mem-detect_apps_example = (mem-detect_apps lower nginx).0 found
