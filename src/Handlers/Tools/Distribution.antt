-- ===== src/Handlers/Tools/Distribution.antt =====
-- The tools of internal/adapters/mcp/server.go on archives, repositories and registries.
use sh_mcp_go.Prelude.{[], ◌∷◌}
use sh_mcp_go.Handlers.Tools.Schema.{string, boolean, number, Tool, required, optional}

abbrev pub tool_package_chart : Tool
tool_package_chart = record {
  name = "package_chart";
  params =
      required string "chart_path"
      ∷ optional string "version"
      ∷ optional string "app_version"
      ∷ optional string "destination"
      ∷ optional boolean "sign"
      ∷ optional string "key"
      ∷ optional string "keyring"
      ∷ [];
}

abbrev pub tool_pull_chart : Tool
tool_pull_chart = record {
  name = "pull_chart";
  params =
      required string "chart_ref"
      ∷ optional string "version"
      ∷ optional string "repo_url"
      ∷ optional string "dest_dir"
      ∷ optional boolean "untar"
      ∷ optional string "untar_dir"
      ∷ optional string "username"
      ∷ optional string "password"
      ∷ optional string "ca_file"
      ∷ optional string "cert_file"
      ∷ optional string "key_file"
      ∷ optional boolean "insecure_skip_tls_verify"
      ∷ optional boolean "pass_credentials_all"
      ∷ optional boolean "plain_http"
      ∷ [];
}

abbrev pub tool_push_chart : Tool
tool_push_chart = record {
  name = "push_chart";
  params =
      required string "chart_path"
      ∷ required string "remote"
      ∷ optional string "ca_file"
      ∷ optional string "cert_file"
      ∷ optional string "key_file"
      ∷ optional boolean "insecure_skip_tls_verify"
      ∷ optional boolean "plain_http"
      ∷ [];
}

abbrev pub tool_test_release : Tool
tool_test_release = record {
  name = "test_release";
  params =
      required string "release_name"
      ∷ required string "namespace"
      ∷ optional number "timeout_seconds"
      ∷ optional string "filter"
      ∷ [];
}

abbrev pub tool_repo_add : Tool
tool_repo_add = record {
  name = "repo_add";
  params =
      required string "name"
      ∷ required string "url"
      ∷ optional string "username"
      ∷ optional string "password"
      ∷ optional string "ca_file"
      ∷ optional string "cert_file"
      ∷ optional string "key_file"
      ∷ optional boolean "insecure_skip_tls_verify"
      ∷ optional boolean "pass_credentials_all"
      ∷ [];
}

abbrev pub tool_repo_remove : Tool
tool_repo_remove = record { name = "repo_remove"; params = required string "name" ∷ [] }

abbrev pub tool_repo_update : Tool
tool_repo_update = record { name = "repo_update"; params = [] }

abbrev pub tool_repo_update_single : Tool
tool_repo_update_single = record {
  name = "repo_update_single";
  params = required string "name" ∷ [];
}

abbrev pub tool_repo_list : Tool
tool_repo_list = record { name = "repo_list"; params = [] }

abbrev pub tool_repo_search : Tool
tool_repo_search = record {
  name = "repo_search";
  params = optional string "keyword" ∷ optional string "repo_url" ∷ [];
}

abbrev pub tool_registry_login : Tool
tool_registry_login = record {
  name = "registry_login";
  params =
      required string "host"
      ∷ required string "username"
      ∷ required string "password"
      ∷ optional string "ca_file"
      ∷ optional string "cert_file"
      ∷ optional string "key_file"
      ∷ optional boolean "insecure_skip_tls_verify"
      ∷ optional boolean "plain_http"
      ∷ [];
}

abbrev pub tool_registry_logout : Tool
tool_registry_logout = record { name = "registry_logout"; params = required string "host" ∷ [] }
