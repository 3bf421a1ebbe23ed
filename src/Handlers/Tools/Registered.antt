-- ===== src/Handlers/Tools/Registered.antt =====
-- `registerTools` of internal/adapters/mcp/server.go.
use sh_mcp_go.Prelude.{List, [], ◌∷◌}
use sh_mcp_go.Handlers.Tools.Schema.{Tool}
use sh_mcp_go.Handlers.Tools.Charts.{
  tool_install_chart, tool_upgrade_chart, tool_rollback_chart, tool_uninstall_chart,
  tool_helm_install, tool_helm_upgrade, tool_helm_rollback, tool_helm_uninstall,
}
use sh_mcp_go.Handlers.Tools.Cluster.{
  tool_install_operator, tool_upgrade_operator, tool_rollback_operator, tool_delete_operator,
  tool_plan_deployment, tool_validate_cluster, tool_validate_release, tool_cluster_inventory,
  tool_release_inventory, tool_resource_estimation, tool_dependency_analysis, tool_security_scan,
  tool_health_check, tool_generate_rca, tool_analyze_failure, tool_generate_values_yaml,
  tool_recommend_upgrade, tool_recommend_operator, tool_deployment_status, tool_release_status,
}
use sh_mcp_go.Handlers.Tools.Inspection.{
  tool_get_release_values, tool_get_release_notes, tool_get_release_manifest, tool_show_chart,
  tool_get_release_metadata, tool_get_release_status_resources, tool_get_release_hooks,
  tool_get_release_revision, tool_list_releases_filtered, tool_show_chart_values,
  tool_show_chart_readme, tool_show_chart_crds, tool_list_chart_dependencies, tool_template_chart,
  tool_lint_chart,
}
use sh_mcp_go.Handlers.Tools.Distribution.{
  tool_package_chart, tool_pull_chart, tool_push_chart, tool_test_release, tool_repo_add,
  tool_repo_remove, tool_repo_update, tool_repo_update_single, tool_repo_list, tool_repo_search,
  tool_registry_login, tool_registry_logout,
}

-- The tools in the order in which they are registered.
abbrev pub registered : List Tool
registered =
    tool_install_chart ∷ tool_upgrade_chart ∷ tool_rollback_chart ∷ tool_uninstall_chart
    ∷ tool_helm_install ∷ tool_helm_upgrade ∷ tool_helm_rollback ∷ tool_helm_uninstall
    ∷ tool_install_operator ∷ tool_upgrade_operator ∷ tool_rollback_operator ∷ tool_delete_operator
    ∷ tool_plan_deployment ∷ tool_validate_cluster ∷ tool_validate_release ∷ tool_cluster_inventory
    ∷ tool_release_inventory ∷ tool_resource_estimation ∷ tool_dependency_analysis
    ∷ tool_security_scan ∷ tool_health_check ∷ tool_generate_rca ∷ tool_analyze_failure
    ∷ tool_generate_values_yaml ∷ tool_recommend_upgrade ∷ tool_recommend_operator
    ∷ tool_deployment_status ∷ tool_release_status ∷ tool_get_release_values
    ∷ tool_get_release_notes ∷ tool_get_release_manifest ∷ tool_show_chart
    ∷ tool_get_release_metadata ∷ tool_get_release_status_resources ∷ tool_get_release_hooks
    ∷ tool_get_release_revision ∷ tool_list_releases_filtered ∷ tool_show_chart_values
    ∷ tool_show_chart_readme ∷ tool_show_chart_crds ∷ tool_list_chart_dependencies
    ∷ tool_template_chart ∷ tool_lint_chart ∷ tool_package_chart ∷ tool_pull_chart ∷ tool_push_chart
    ∷ tool_test_release ∷ tool_repo_add ∷ tool_repo_remove ∷ tool_repo_update
    ∷ tool_repo_update_single ∷ tool_repo_list ∷ tool_repo_search ∷ tool_registry_login
    ∷ tool_registry_logout ∷ []
