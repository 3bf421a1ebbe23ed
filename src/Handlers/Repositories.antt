-- ===== src/Handlers/Repositories.antt =====
-- The tools of internal/adapters/mcp/handler.go on repositories, archives and registries.
use sh_mcp_go.Prelude.{
  ℕ, String, Bool, not, ◌||◌, Option, List, [], ◌∷◌, map, Result, concat, Any, is_nil, length,
  if◌then◌else◌, ◌==◌,
}
use sh_mcp_go.HelmClient.Errors.{Error}
use sh_mcp_go.HelmClient.Queries.{
  RepoEntry, RegistryLoginRequest, PackageRequest, PullRequest, PushRequest,
}
use sh_mcp_go.HelmClient.Answers.{RepoSearchResult, LintResult}
use sh_mcp_go.HelmClient.Sdk.{Sdk, World, Settings}
use sh_mcp_go.HelmClient.Repositories.{add_repo, remove_repo, update_repos, update_repo, list_repos}
use sh_mcp_go.HelmClient.Indexes.{search_repo}
use sh_mcp_go.Handlers.Arguments.{Arguments, Parser, comma_list, values_argument}
use sh_mcp_go.Handlers.Answers.{ToolResult, tool_text, tool_error, tool_json, answer, confirm}
use sh_mcp_go.Handlers.Requests.{
  repo_entry, login_request, package_request, pull_request, push_request,
}

-- An item of the answer of `RepoList`.
pub record RepoItem : Type 0 where
  pub name : String
  pub url : String
  pub has_tls : Bool
  pub has_auth : Bool

abbrev pub repo_item : RepoEntry → RepoItem
repo_item r = record {
  name = r.name;
  url = r.url;
  has_tls = not (r.ca_file == "") || not (r.cert_file == "") || not (r.key_file == "");
  has_auth = not (r.username == "");
}

-- The paths that `LintChart` lints.
unfoldable pub lint_paths :
    (code_points : String → List ℕ)
    → (to_text : List ℕ → String) → (chart_path : String) → List String
unfolding comma_list
lint_paths code_points to_text chart_path = map to_text (comma_list (code_points chart_path))

module _ (parser : Parser) (error_text : Error → String) (quote : String → String) where
  abbrev pub about : (before subject after : String) → String
  unfolding concat
  about before subject after = concat (before ∷ quote subject ∷ after ∷ [])

  module _ (sdk : Sdk) (settings : Settings) where
    abbrev pub reply_done : (tool text : String) → World sdk × Option Error → World sdk × ToolResult
    unfolding confirm
    reply_done tool text (w, e) = (w, confirm error_text tool text e)

    -- `RepoAdd`.
    unfoldable pub repo_add_tool : Arguments → World sdk → World sdk × ToolResult
    unfolding confirm add_repo repo_entry concat
    repo_add_tool args w =
        reply_done "repo_add"
          (about "Repository " (parser.parse_string args "name" "") " added successfully")
          (add_repo sdk settings (repo_entry parser args) w)

    -- `RepoRemove`.
    unfoldable pub repo_remove_tool : Arguments → World sdk → World sdk × ToolResult
    unfolding confirm remove_repo concat
    repo_remove_tool args w =
        reply_done "repo_remove"
          (about "Repository " (parser.parse_string args "name" "") " removed")
          (remove_repo sdk settings (parser.parse_string args "name" "") w)

    -- `RepoUpdate`.
    unfoldable pub repo_update_tool : World sdk → World sdk × ToolResult
    unfolding confirm update_repos
    repo_update_tool w =
        reply_done "repo_update" "All repositories updated successfully"
          (update_repos sdk settings w)

    -- `RepoUpdateSingle`.
    unfoldable pub repo_update_single_tool : Arguments → World sdk → World sdk × ToolResult
    unfolding confirm update_repo concat
    repo_update_single_tool args w =
        reply_done "repo_update_single"
          (about "Repository " (parser.parse_string args "name" "") " updated successfully")
          (update_repo sdk settings (parser.parse_string args "name" "") w)

    -- `RepoList`; the items with their number are shown as JSON.
    unfoldable pub repo_list_tool :
        (marshal : List RepoItem × ℕ → Result String String) → World sdk → ToolResult
    unfolding list_repos tool_json
    repo_list_tool marshal w =
        let items = map repo_item (list_repos sdk settings w) in
        tool_json marshal (items, length items)

    -- `RepoSearch`.
    unfoldable pub repo_search_tool :
        (to_lower : String → String)
        → (marshal : List RepoSearchResult × ℕ → Result String String) → Arguments
        → World sdk
        → ToolResult
    unfolding answer search_repo tool_json
    repo_search_tool to_lower marshal args w =
        answer error_text "repo_search" (λ results. tool_json marshal (results, length results))
          (search_repo sdk settings to_lower (parser.parse_string args "keyword" "")
            (parser.parse_string args "repo_url" "") w)

  -- `RegistryLogin` and `RegistryLogout`, by the answers of the port.
  unfoldable pub registry_login_tool :
      (login : RegistryLoginRequest → Option Error) → Arguments → ToolResult
  unfolding confirm login_request concat
  registry_login_tool login args =
      confirm error_text "registry_login"
        (about "Logged in to registry " (parser.parse_string args "host" "") " successfully")
        (login (login_request parser args))

  unfoldable pub registry_logout_tool :
      (logout : (host : String) → Option Error) → Arguments → ToolResult
  unfolding confirm concat
  registry_logout_tool logout args =
      confirm error_text "registry_logout"
        (about "Logged out from registry " (parser.parse_string args "host" "") "")
        (logout (parser.parse_string args "host" ""))

  -- `PackageChart`, `PullChart` and `PushChart`, by the answers of the port.
  unfoldable pub package_chart_tool :
      (pack : PackageRequest → Result Error String) → Arguments → ToolResult
  unfolding answer package_request concat
  package_chart_tool pack args =
      answer error_text "package_chart"
        (λ path. tool_text (concat ("Chart packaged successfully: " ∷ path ∷ [])))
        (pack (package_request parser args))

  unfoldable pub pull_chart_tool :
      (pull : PullRequest → Result Error String) → Arguments → ToolResult
  unfolding answer pull_request
  pull_chart_tool pull args =
      answer error_text "pull_chart" tool_text (pull (pull_request parser args))

  unfoldable pub push_chart_tool :
      (push : PushRequest → Result Error String) → Arguments → ToolResult
  unfolding answer push_request
  push_chart_tool push args =
      answer error_text "push_chart" tool_text (push (push_request parser args))

  -- `LintChart`, by the answer of the port.
  unfoldable pub lint_chart_tool :
      (code_points : String → List ℕ)
      → (to_text : List ℕ → String)
      → (lint : (paths : List String) → (values : List (String × Any)) → Result Error LintResult)
      → (marshal : LintResult → Result String String) → Arguments
      → ToolResult
  unfolding lint_paths values_argument answer tool_json
  lint_chart_tool code_points to_text lint marshal args =
      let paths = lint_paths code_points to_text (parser.parse_string args "chart_path" "") in
      if is_nil paths
      then tool_error "chart_path is required"
      else answer error_text "lint_chart" (tool_json marshal) (lint paths (values_argument args))
