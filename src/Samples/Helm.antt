-- ===== src/Samples/Helm.antt =====
-- The theorems on internal/adapters/helm/client.go at concrete inputs.
use sh_mcp_go.Prelude.{
  ◌*◌, ◌^◌, ◌+◌, ◌<◌, ◌≤◌, ◌≡◌, ◌≢◌, ◌↔◌, refl, String, true, false, none, some, [], ◌∷◌, arith,
  length, ◌==◌, eq_iff,
}
use mathlib.Core.List.{Memᴰ}
use sh_mcp_go.HelmClient.Releases.{Hook, RawRelease, release}
use sh_mcp_go.HelmClient.Requests.{
  HelmInstallRequest, HelmUpgradeRequest, HelmRollbackRequest, HelmUninstallRequest,
}
use sh_mcp_go.HelmClient.Queries.{RepoEntry, TemplateRequest}
use sh_mcp_go.HelmClient.Parameters.{
  install_action, upgrade_action, rollback_action, uninstall_action,
}
use sh_mcp_go.HelmClient.Changes.{dry_run_install, dry_run_upgrade, diff, template_chart}
use sh_mcp_go.HelmClient.Repositories.{add_repo, ensure_repo, list_repos}
use sh_mcp_go.HelmClient.Testing.{test_result, tested_hooks}
use sh_mcp_go.HelmClient.DryRuns.{dry_runs-cluster}
use sh_mcp_go.HelmClient.Timeouts.{action_timeouts}
use sh_mcp_go.HelmClient.Registered.{add_repo-list_repos}
use sh_mcp_go.HelmClient.TestOutcomes.{FailedTest, test_result-status}
use sh_mcp_go.Samples.HelmSdk.{small_sdk, small_sdk_laws, three_tries_laws, settings, world}

abbrev web_install : HelmInstallRequest
web_install = record {
  release_name = "web";
  namespace = "prod";
  chart_name = "web";
  repo_url = "https://charts.io";
  version = "";
  values = [];
  dry_run = false;
  wait = false;
  wait_for_jobs = false;
  timeout = 60;
  atomic = false;
  create_ns = false;
  labels = [];
  description = "";
  generate_name = false;
  name_template = "";
  disable_hooks = false;
  replace = false;
  skip_crds = false;
  sub_notes = false;
  skip_schema_validation = false;
  disable_open_api_validation = false;
  server_side_apply = false;
  force_conflicts = false;
  take_ownership = false;
  include_crds = false;
}

abbrev web_upgrade : HelmUpgradeRequest
web_upgrade = record {
  release_name = "web";
  namespace = "prod";
  chart_name = "web";
  repo_url = "https://charts.io";
  version = "";
  values = [];
  dry_run = false;
  wait = false;
  timeout = 60;
  atomic = false;
  reuse_values = false;
  reset_values = false;
  force = false;
  labels = [];
  description = "";
  disable_hooks = false;
  cleanup_on_fail = false;
  max_history = 0;
  rollback_on_failure = false;
  reset_then_reuse_values = false;
  skip_schema_validation = false;
  disable_open_api_validation = false;
  server_side_apply = "";
  force_conflicts = false;
  take_ownership = false;
}

abbrev web_rollback : HelmRollbackRequest
web_rollback = record {
  release_name = "web";
  namespace = "prod";
  version = 0;
  dry_run = false;
  wait = false;
  timeout = 60;
  force = false;
  disable_hooks = false;
  cleanup_on_fail = false;
  max_history = 0;
  server_side_apply = "";
  force_conflicts = false;
}

abbrev web_uninstall : HelmUninstallRequest
web_uninstall = record {
  release_name = "web";
  namespace = "prod";
  dry_run = false;
  keep_history = false;
  timeout = 60;
  wait = false;
  disable_hooks = false;
  description = "";
}

abbrev web_template : TemplateRequest
web_template = record {
  release_name = "web";
  namespace = "prod";
  chart_name = "web";
  repo_url = "https://charts.io";
  version = "";
  values = [];
  show_notes = false;
  include_crds = false;
  skip_schema_validation = false;
}

abbrev charts : RepoEntry
charts = record {
  name = "charts";
  url = "https://charts.io";
  username = "";
  password = "";
  ca_file = "ca.pem";
  cert_file = "";
  key_file = "";
  insecure_skip_tls_verify = false;
  pass_credentials_all = false;
}

dry_runs-cluster_example :
    ((dry_run_install small_sdk settings web_install world).0.cluster ≡ world.cluster)
    × ((dry_run_upgrade small_sdk settings web_upgrade world).0.cluster ≡ world.cluster)
    × ((diff small_sdk settings web_upgrade world).0.cluster ≡ world.cluster)
    × ((template_chart small_sdk settings web_template world).0.cluster ≡ world.cluster)
dry_runs-cluster_example =
    dry_runs-cluster small_sdk settings small_sdk_laws three_tries_laws web_install web_upgrade
      web_template world

charts_added : (add_repo small_sdk settings charts world).1 ≡ none
unfolding add_repo
charts_added = refl

add_repo-list_repos_example :
    Memᴰ charts (list_repos small_sdk settings (add_repo small_sdk settings charts world).0)
    × (ensure_repo small_sdk settings "charts" "https://other.io"
          (add_repo small_sdk settings charts world).0
        ≡ ((add_repo small_sdk settings charts world).0, none))
add_repo-list_repos_example =
    add_repo-list_repos small_sdk settings small_sdk_laws charts "https://other.io" world
      charts_added

action_timeouts_example :
    ((install_action 5 web_install).timeout ≡ 60 * 1000000000)
    × ((upgrade_action 5 web_upgrade).timeout ≡ 60 * 1000000000)
    × ((rollback_action 5 web_rollback).timeout ≡ 60 * 1000000000)
    × ((uninstall_action web_uninstall).timeout ≡ some (60 * 1000000000))
    × (60 * 1000000000 < 2 ^ 63)
action_timeouts_example =
    action_timeouts 5 60 web_install web_upgrade web_rollback web_uninstall (omega arith)
      (omega arith) refl refl refl refl

abbrev hook : (name event phase : String) → Hook
hook name event phase = record {
  name = name;
  kind = "Pod";
  path = "";
  events = event ∷ [];
  phase = phase;
  weight = 0;
}

abbrev tested : RawRelease
tested = release (record {
  name = "web";
  version = 1;
  manifest = "";
  info = none;
  hooks =
      hook "a" "test" "Succeeded" ∷ hook "b" "test" "Failed" ∷ hook "c" "pre-install" "Failed" ∷ [];
  chart = none;
})

phases_apart : small_sdk.hook_phase_succeeded ≢ small_sdk.hook_phase_failed
phases_apart e =
    let same : ("Succeeded" == "Failed") ≡ true = (eq_iff "Succeeded" "Failed").1 e in
    ground (arith, same)

test_result-status_example :
    (((test_result small_sdk "web" "prod" tested).status ≡ "failed")
      ↔ ((h : Hook) × Memᴰ h (tested_hooks small_sdk tested) × FailedTest small_sdk h))
    × ((test_result small_sdk "web" "prod" tested).passed
          + (test_result small_sdk "web" "prod" tested).failed
        ≤ length ((test_result small_sdk "web" "prod" tested).messages))
    × (length ((test_result small_sdk "web" "prod" tested).messages)
        ≤ length (tested_hooks small_sdk tested))
test_result-status_example = test_result-status small_sdk phases_apart "web" "prod" tested
