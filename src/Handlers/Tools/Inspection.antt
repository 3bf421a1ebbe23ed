-- ===== src/Handlers/Tools/Inspection.antt =====
-- The tools of internal/adapters/mcp/server.go that look into releases and charts.
use sh_mcp_go.Prelude.{[], ◌∷◌}
use sh_mcp_go.Handlers.Tools.Schema.{string, boolean, number, object, Tool, required, optional}

abbrev pub tool_get_release_values : Tool
tool_get_release_values = record {
  name = "get_release_values";
  params =
      required string "release_name"
      ∷ required string "namespace"
      ∷ optional boolean "all_values"
      ∷ [];
}

abbrev pub tool_get_release_notes : Tool
tool_get_release_notes = record {
  name = "get_release_notes";
  params = required string "release_name" ∷ required string "namespace" ∷ [];
}

abbrev pub tool_get_release_manifest : Tool
tool_get_release_manifest = record {
  name = "get_release_manifest";
  params = required string "release_name" ∷ required string "namespace" ∷ [];
}

abbrev pub tool_show_chart : Tool
tool_show_chart = record {
  name = "show_chart";
  params =
      required string "chart_name" ∷ required string "repo_url" ∷ optional string "version" ∷ [];
}

abbrev pub tool_get_release_metadata : Tool
tool_get_release_metadata = record {
  name = "get_release_metadata";
  params =
      required string "release_name" ∷ required string "namespace" ∷ optional number "version" ∷ [];
}

abbrev pub tool_get_release_status_resources : Tool
tool_get_release_status_resources = record {
  name = "get_release_status_resources";
  params =
      required string "release_name" ∷ required string "namespace" ∷ optional number "version" ∷ [];
}

abbrev pub tool_get_release_hooks : Tool
tool_get_release_hooks = record {
  name = "get_release_hooks";
  params = required string "release_name" ∷ required string "namespace" ∷ [];
}

abbrev pub tool_get_release_revision : Tool
tool_get_release_revision = record {
  name = "get_release_revision";
  params =
      required string "release_name" ∷ required string "namespace" ∷ required number "version" ∷ [];
}

abbrev pub tool_list_releases_filtered : Tool
tool_list_releases_filtered = record {
  name = "list_releases_filtered";
  params =
      optional string "namespace"
      ∷ optional boolean "all_namespaces"
      ∷ optional string "filter"
      ∷ optional string "selector"
      ∷ optional string "state_mask"
      ∷ optional number "limit"
      ∷ optional number "offset"
      ∷ optional string "sort_by"
      ∷ optional boolean "sort_reverse"
      ∷ [];
}

abbrev pub tool_show_chart_values : Tool
tool_show_chart_values = record {
  name = "show_chart_values";
  params =
      required string "chart_name" ∷ required string "repo_url" ∷ optional string "version" ∷ [];
}

abbrev pub tool_show_chart_readme : Tool
tool_show_chart_readme = record {
  name = "show_chart_readme";
  params =
      required string "chart_name" ∷ required string "repo_url" ∷ optional string "version" ∷ [];
}

abbrev pub tool_show_chart_crds : Tool
tool_show_chart_crds = record {
  name = "show_chart_crds";
  params =
      required string "chart_name" ∷ required string "repo_url" ∷ optional string "version" ∷ [];
}

abbrev pub tool_list_chart_dependencies : Tool
tool_list_chart_dependencies = record {
  name = "list_chart_dependencies";
  params =
      required string "chart_name" ∷ required string "repo_url" ∷ optional string "version" ∷ [];
}

abbrev pub tool_template_chart : Tool
tool_template_chart = record {
  name = "template_chart";
  params =
      required string "chart_name"
      ∷ optional string "repo_url"
      ∷ optional string "namespace"
      ∷ optional string "release_name"
      ∷ optional string "version"
      ∷ optional object "values"
      ∷ optional boolean "show_notes"
      ∷ optional boolean "include_crds"
      ∷ optional boolean "skip_schema_validation"
      ∷ [];
}

abbrev pub tool_lint_chart : Tool
tool_lint_chart = record {
  name = "lint_chart";
  params =
      required string "chart_path"
      ∷ optional object "values"
      ∷ optional boolean "strict"
      ∷ optional string "namespace"
      ∷ optional boolean "skip_schema_validation"
      ∷ [];
}
