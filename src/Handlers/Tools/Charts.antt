-- ===== src/Handlers/Tools/Charts.antt =====
-- The tools of internal/adapters/mcp/server.go on the lifecycle of charts.
use sh_mcp_go.Prelude.{[], ◌∷◌}
use sh_mcp_go.Handlers.Tools.Schema.{string, boolean, number, object, Tool, required, optional}

abbrev pub tool_install_chart : Tool
tool_install_chart = record {
  name = "install_chart";
  params =
      required string "release_name"
      ∷ required string "chart_name"
      ∷ required string "repo_url"
      ∷ optional string "namespace"
      ∷ optional string "version"
      ∷ optional object "values"
      ∷ optional boolean "dry_run"
      ∷ optional boolean "wait"
      ∷ optional boolean "atomic"
      ∷ optional boolean "create_namespace"
      ∷ optional number "timeout_seconds"
      ∷ [];
}

abbrev pub tool_upgrade_chart : Tool
tool_upgrade_chart = record {
  name = "upgrade_chart";
  params =
      required string "release_name"
      ∷ required string "chart_name"
      ∷ required string "repo_url"
      ∷ optional string "namespace"
      ∷ optional string "version"
      ∷ optional object "values"
      ∷ optional boolean "dry_run"
      ∷ optional boolean "wait"
      ∷ optional boolean "atomic"
      ∷ optional boolean "reuse_values"
      ∷ optional boolean "reset_values"
      ∷ [];
}

abbrev pub tool_rollback_chart : Tool
tool_rollback_chart = record {
  name = "rollback_chart";
  params =
      required string "release_name"
      ∷ required string "namespace"
      ∷ optional number "version"
      ∷ optional boolean "dry_run"
      ∷ optional boolean "wait"
      ∷ [];
}

abbrev pub tool_uninstall_chart : Tool
tool_uninstall_chart = record {
  name = "uninstall_chart";
  params =
      required string "release_name"
      ∷ required string "namespace"
      ∷ optional boolean "dry_run"
      ∷ optional boolean "keep_history"
      ∷ [];
}

abbrev pub tool_helm_install : Tool
tool_helm_install = record {
  name = "helm_install";
  params =
      required string "release_name"
      ∷ required string "chart_name"
      ∷ optional string "repo_url"
      ∷ optional string "namespace"
      ∷ optional string "version"
      ∷ optional object "values"
      ∷ optional boolean "dry_run"
      ∷ optional boolean "wait"
      ∷ optional boolean "wait_for_jobs"
      ∷ optional boolean "atomic"
      ∷ optional boolean "create_namespace"
      ∷ optional number "timeout_seconds"
      ∷ optional string "description"
      ∷ optional boolean "generate_name"
      ∷ optional string "name_template"
      ∷ optional boolean "disable_hooks"
      ∷ optional boolean "replace"
      ∷ optional boolean "skip_crds"
      ∷ optional boolean "include_crds"
      ∷ optional boolean "sub_notes"
      ∷ optional boolean "skip_schema_validation"
      ∷ optional boolean "disable_openapi_validation"
      ∷ optional boolean "server_side_apply"
      ∷ optional boolean "force_conflicts"
      ∷ optional boolean "take_ownership"
      ∷ [];
}

abbrev pub tool_helm_upgrade : Tool
tool_helm_upgrade = record {
  name = "helm_upgrade";
  params =
      required string "release_name"
      ∷ required string "chart_name"
      ∷ optional string "repo_url"
      ∷ optional string "namespace"
      ∷ optional string "version"
      ∷ optional object "values"
      ∷ optional boolean "dry_run"
      ∷ optional boolean "wait"
      ∷ optional boolean "atomic"
      ∷ optional boolean "reuse_values"
      ∷ optional boolean "reset_values"
      ∷ optional boolean "reset_then_reuse_values"
      ∷ optional number "timeout_seconds"
      ∷ optional number "max_history"
      ∷ optional string "description"
      ∷ optional boolean "disable_hooks"
      ∷ optional boolean "cleanup_on_fail"
      ∷ optional boolean "rollback_on_failure"
      ∷ optional boolean "skip_schema_validation"
      ∷ optional boolean "disable_openapi_validation"
      ∷ optional string "server_side_apply"
      ∷ optional boolean "force_conflicts"
      ∷ optional boolean "take_ownership"
      ∷ [];
}

abbrev pub tool_helm_rollback : Tool
tool_helm_rollback = record {
  name = "helm_rollback";
  params =
      required string "release_name"
      ∷ required string "namespace"
      ∷ optional number "version"
      ∷ optional boolean "dry_run"
      ∷ optional boolean "wait"
      ∷ optional number "timeout_seconds"
      ∷ optional boolean "disable_hooks"
      ∷ optional boolean "cleanup_on_fail"
      ∷ optional number "max_history"
      ∷ optional string "server_side_apply"
      ∷ optional boolean "force_conflicts"
      ∷ [];
}

abbrev pub tool_helm_uninstall : Tool
tool_helm_uninstall = record {
  name = "helm_uninstall";
  params =
      required string "release_name"
      ∷ required string "namespace"
      ∷ optional boolean "dry_run"
      ∷ optional boolean "keep_history"
      ∷ optional boolean "wait"
      ∷ optional boolean "disable_hooks"
      ∷ optional number "timeout_seconds"
      ∷ optional string "description"
      ∷ [];
}
