-- ===== src/HelmClient/Parameters.antt =====
-- The actions that the methods of internal/adapters/helm/client.go run.
use sh_mcp_go.Prelude.{
  ℕ, ◌*◌, ◌%◌, ◌^◌, String, Bool, ◌&&◌, Option, none, some, ltb, if◌then◌else◌, ◌==◌,
}
use sh_mcp_go.HelmClient.Requests.{
  HelmInstallRequest, HelmUpgradeRequest, HelmRollbackRequest, HelmUninstallRequest,
}
use sh_mcp_go.HelmClient.Queries.{TemplateRequest}
use sh_mcp_go.HelmClient.Actions.{
  DryRunStrategy, dry_run_none, dry_run_client, WaitStrategy, status_watcher, hook_only,
  InstallAction, UpgradeAction, RollbackAction, UninstallAction,
}

-- `n > 0` for an `int`.
abbrev pub is_positive : ℕ → Bool
is_positive n = ltb 0 n && ltb n (2 ^ 63)

-- `time.Duration(n) * time.Second`.
abbrev pub seconds : ℕ → ℕ
seconds n = n * 1000000000 % 2 ^ 64

unfoldable pub timeout_for : (default timeout : ℕ) → ℕ
timeout_for default timeout = if is_positive timeout then seconds timeout else default

abbrev pub dry_run_strategy_for : Bool → DryRunStrategy
dry_run_strategy_for dry_run = if dry_run then dry_run_client else dry_run_none

abbrev pub wait_strategy_for : Bool → WaitStrategy
wait_strategy_for wait = if wait then status_watcher else hook_only

abbrev pub unless_empty : String → Option String
unless_empty text = if text == "" then none else some text

-- The actions that the methods run, by the default timeout.
unfoldable pub install_action : (default_timeout : ℕ) → HelmInstallRequest → InstallAction
unfolding timeout_for
install_action default_timeout req = record {
  config = some (req.namespace);
  release_name = req.release_name;
  namespace = req.namespace;
  version = req.version;
  create_namespace = req.create_ns;
  wait_for_jobs = req.wait_for_jobs;
  rollback_on_failure = req.atomic;
  labels = req.labels;
  description = req.description;
  generate_name = req.generate_name;
  name_template = req.name_template;
  disable_hooks = req.disable_hooks;
  replace = req.replace;
  skip_crds = req.skip_crds;
  sub_notes = req.sub_notes;
  skip_schema_validation = req.skip_schema_validation;
  disable_open_api_validation = req.disable_open_api_validation;
  server_side_apply = req.server_side_apply;
  force_conflicts = req.force_conflicts;
  take_ownership = req.take_ownership;
  include_crds = req.include_crds;
  dry_run_strategy = dry_run_strategy_for (req.dry_run);
  wait_strategy = wait_strategy_for (req.wait);
  timeout = timeout_for default_timeout (req.timeout);
}

unfoldable pub upgrade_action : (default_timeout : ℕ) → HelmUpgradeRequest → UpgradeAction
unfolding timeout_for
upgrade_action default_timeout req = record {
  config = req.namespace;
  namespace = req.namespace;
  version = req.version;
  reuse_values = req.reuse_values;
  reset_values = req.reset_values;
  force_replace = req.force;
  rollback_on_failure = req.atomic;
  labels = req.labels;
  description = req.description;
  disable_hooks = req.disable_hooks;
  cleanup_on_fail = req.cleanup_on_fail;
  max_history = req.max_history;
  reset_then_reuse_values = req.reset_then_reuse_values;
  skip_schema_validation = req.skip_schema_validation;
  disable_open_api_validation = req.disable_open_api_validation;
  force_conflicts = req.force_conflicts;
  take_ownership = req.take_ownership;
  server_side_apply = unless_empty (req.server_side_apply);
  dry_run_strategy = dry_run_strategy_for (req.dry_run);
  wait_strategy = wait_strategy_for (req.wait);
  timeout = timeout_for default_timeout (req.timeout);
}

unfoldable pub rollback_action : (default_timeout : ℕ) → HelmRollbackRequest → RollbackAction
unfolding timeout_for
rollback_action default_timeout req = record {
  config = req.namespace;
  version = req.version;
  force_replace = req.force;
  disable_hooks = req.disable_hooks;
  cleanup_on_fail = req.cleanup_on_fail;
  max_history = req.max_history;
  force_conflicts = req.force_conflicts;
  server_side_apply = unless_empty (req.server_side_apply);
  dry_run_strategy = dry_run_strategy_for (req.dry_run);
  wait_strategy = wait_strategy_for (req.wait);
  timeout = timeout_for default_timeout (req.timeout);
}

unfoldable pub uninstall_action : HelmUninstallRequest → UninstallAction
uninstall_action req = record {
  config = req.namespace;
  dry_run = req.dry_run;
  keep_history = req.keep_history;
  disable_hooks = req.disable_hooks;
  description = req.description;
  timeout = if is_positive (req.timeout) then some (seconds (req.timeout)) else none;
  wait_strategy = wait_strategy_for (req.wait);
}

-- The action of `TemplateChart`; the other fields are those of `fresh`, a new one.
unfoldable pub template_action : (fresh : InstallAction) → TemplateRequest → InstallAction
template_action fresh req = record fresh {
  release_name = if req.release_name == "" then "release-name" else req.release_name;
  namespace = if req.namespace == "" then "default" else req.namespace;
  version = req.version;
  dry_run_strategy = dry_run_client;
  skip_schema_validation = req.skip_schema_validation;
  include_crds = req.include_crds;
}
