-- ===== src/Handlers/Tools/Cluster.antt =====
-- The tools of internal/adapters/mcp/server.go on operators, plans and the cluster.
use sh_mcp_go.Prelude.{[], ◌∷◌}
use sh_mcp_go.Handlers.Tools.Schema.{string, number, Tool, required, optional}

abbrev pub tool_install_operator : Tool
tool_install_operator = record {
  name = "install_operator";
  params =
      required string "name"
      ∷ optional string "namespace"
      ∷ optional string "channel"
      ∷ optional string "source"
      ∷ [];
}

abbrev pub tool_upgrade_operator : Tool
tool_upgrade_operator = record {
  name = "upgrade_operator";
  params =
      required string "name"
      ∷ required string "namespace"
      ∷ optional string "channel"
      ∷ optional string "version"
      ∷ [];
}

abbrev pub tool_rollback_operator : Tool
tool_rollback_operator = record {
  name = "rollback_operator";
  params = required string "name" ∷ required string "namespace" ∷ [];
}

abbrev pub tool_delete_operator : Tool
tool_delete_operator = record {
  name = "delete_operator";
  params = required string "name" ∷ required string "namespace" ∷ [];
}

abbrev pub tool_plan_deployment : Tool
tool_plan_deployment = record {
  name = "plan_deployment";
  params = required string "intent" ∷ optional string "namespace" ∷ [];
}

abbrev pub tool_validate_cluster : Tool
tool_validate_cluster = record { name = "validate_cluster"; params = [] }

abbrev pub tool_validate_release : Tool
tool_validate_release = record {
  name = "validate_release";
  params = required string "release_name" ∷ required string "namespace" ∷ [];
}

abbrev pub tool_cluster_inventory : Tool
tool_cluster_inventory = record { name = "cluster_inventory"; params = [] }

abbrev pub tool_release_inventory : Tool
tool_release_inventory = record {
  name = "release_inventory";
  params = optional string "namespace" ∷ [];
}

abbrev pub tool_resource_estimation : Tool
tool_resource_estimation = record {
  name = "resource_estimation";
  params =
      required string "chart_name" ∷ optional string "namespace" ∷ optional number "replicas" ∷ [];
}

abbrev pub tool_dependency_analysis : Tool
tool_dependency_analysis = record {
  name = "dependency_analysis";
  params =
      required string "chart_name" ∷ required string "repo_url" ∷ optional string "version" ∷ [];
}

abbrev pub tool_security_scan : Tool
tool_security_scan = record {
  name = "security_scan";
  params =
      optional string "release_name"
      ∷ optional string "namespace"
      ∷ optional string "chart_name"
      ∷ optional string "repo_url"
      ∷ [];
}

abbrev pub tool_health_check : Tool
tool_health_check = record {
  name = "health_check";
  params = required string "release_name" ∷ required string "namespace" ∷ [];
}

abbrev pub tool_generate_rca : Tool
tool_generate_rca = record {
  name = "generate_rca";
  params = required string "release_name" ∷ required string "namespace" ∷ [];
}

abbrev pub tool_analyze_failure : Tool
tool_analyze_failure = record {
  name = "analyze_failure";
  params =
      required string "release_name"
      ∷ required string "namespace"
      ∷ optional string "error_message"
      ∷ [];
}

abbrev pub tool_generate_values_yaml : Tool
tool_generate_values_yaml = record {
  name = "generate_values_yaml";
  params =
      required string "chart_name" ∷ required string "repo_url" ∷ optional string "version" ∷ [];
}

abbrev pub tool_recommend_upgrade : Tool
tool_recommend_upgrade = record {
  name = "recommend_upgrade";
  params = required string "release_name" ∷ required string "namespace" ∷ [];
}

abbrev pub tool_recommend_operator : Tool
tool_recommend_operator = record {
  name = "recommend_operator";
  params = required string "workload_type" ∷ [];
}

abbrev pub tool_deployment_status : Tool
tool_deployment_status = record {
  name = "deployment_status";
  params =
      optional string "deployment_id"
      ∷ optional string "release_name"
      ∷ optional string "namespace"
      ∷ [];
}

abbrev pub tool_release_status : Tool
tool_release_status = record {
  name = "release_status";
  params = required string "release_name" ∷ required string "namespace" ∷ [];
}
