-- ===== src/Samples/Deployments.antt =====
-- An nginx release: the theorems on internal/domain/deployment at concrete inputs.
use sh_mcp_go.Prelude.{
  String, ◌≡◌, ◌↔◌, refl, Bool, true, false, none, some, ok, List, [], ◌∷◌, codes, trim_space,
  unique_keys, ◌++◌, Any, lookup,
}
use sh_mcp_go.Deployment.Status.{pending, deploying, rolling_back}
use sh_mcp_go.Deployment.Errors.{invalid_transition}
use sh_mcp_go.Deployment.Naming
use sh_mcp_go.Deployment.Naming.{validate_release_name, validate_namespace}
use sh_mcp_go.Deployment.Naming.Labels.{
  IsLabel, validate_release_name-none, validate_namespace-none,
}
use sh_mcp_go.Deployment.Chart.{ChartReference, repo, validate_chart}
use sh_mcp_go.Deployment.Values.{Values, merge, merge_lem}
use sh_mcp_go.Deployment.Events.{Moment}
use sh_mcp_go.Deployment.Entity.{Deployment, initial, new}
use sh_mcp_go.Deployment.Creation.{new-ok_iff}
use sh_mcp_go.Deployment.Lifecycle.{
  start_deployment, mark_succeeded, start_rollback, set_label, Call, command, drain, step, run,
}
use sh_mcp_go.Deployment.Lifecycle.Diagram.{Edge, step-Edge_iff, step_refused}
use sh_mcp_go.Deployment.Lifecycle.Versions.{IsConsistent, identity, run-IsConsistent}
use sh_mcp_go.Deployment.Lifecycle.EventLog.{commands, run-commands}

abbrev pub moment : Moment
moment = record { recorded_at = 10; updated_at = 11; occurred_at = 12; event_id = "e" }

abbrev pub chart : ChartReference
chart = record {
  name = "nginx";
  repo_url = "https://charts.example.com";
  version = "";
  source = repo;
}

abbrev pub no_semver : String → Bool
no_semver v = false

unfoldable pub nginx : Deployment
unfolding initial
nginx = initial moment "id-1" "web" "default" chart []

abbrev calls : List Call
calls =
    command moment start_deployment
    ∷ drain
    ∷ command moment (mark_succeeded 1)
    ∷ command moment (set_label "team" "web")
    ∷ []

step-Edge_iff_example : Edge start_deployment pending deploying
unfolding step nginx
step-Edge_iff_example = (step-Edge_iff moment start_deployment nginx deploying).0 (refl, refl)

step_refused_example :
    ((step moment (start_rollback 1) nginx).0 ≡ nginx)
    × (invalid_transition pending rolling_back ≡ invalid_transition pending rolling_back)
unfolding step nginx
step_refused_example =
    step_refused moment (start_rollback 1) nginx (invalid_transition pending rolling_back) refl

new-nginx : new no_semver moment "id-1" "web" "default" chart [] ≡ ok nginx
unfolding new validate_release_name validate_namespace validate_chart Naming.release_name_re
    Naming.namespace_re trim_space nginx
new-nginx = refl

new-ok_iff_example :
    (nginx ≡ initial moment "id-1" "web" "default" chart [])
    × IsLabel 54 (codes "web")
    × IsLabel 63 (codes "default")
    × (validate_chart no_semver chart ≡ none)
new-ok_iff_example = (new-ok_iff no_semver moment "id-1" "web" "default" chart [] nginx).0 new-nginx

run-IsConsistent_example :
    IsConsistent (run calls nginx).0
    × (identity (run calls nginx).0 ≡ ("id-1", "web", "default", 11))
run-IsConsistent_example =
    run-IsConsistent no_semver moment "id-1" "web" "default" chart [] calls nginx new-nginx

run-commands_example :
    (run (commands calls) nginx).0
    ≡ record (run calls nginx).0 { events = (run calls nginx).1 ++ (run calls nginx).0.events }
run-commands_example = run-commands calls nginx

validate_release_name-none_example :
    (validate_release_name "web-1" ≡ none) ↔ IsLabel 54 (codes "web-1")
validate_release_name-none_example = validate_release_name-none "web-1"

validate_namespace-none_example : (validate_namespace "-bad" ≡ none) ↔ IsLabel 63 (codes "-bad")
validate_namespace-none_example = validate_namespace-none "-bad"

abbrev base : Values
base = ("replicas", Any.int 1) ∷ ("debug", Any.bool true) ∷ []

abbrev overrides : Values
overrides = ("replicas", Any.int 3) ∷ []

merge_lem_example :
    (lookup "replicas" (merge base overrides) ≡ some (Any.int 3))
    × (unique_keys (merge base overrides) ≡ true)
unfolding merge lookup unique_keys
merge_lem_example = merge_lem base overrides "replicas"
