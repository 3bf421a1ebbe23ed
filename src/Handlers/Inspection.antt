-- ===== src/Handlers/Inspection.antt =====
-- The tools of internal/adapters/mcp/handler.go that show releases and charts by the Helm port.
use sh_mcp_go.Prelude.{ℕ, String, Bool, false, List, map, Result, Any, length}
use sh_mcp_go.HelmClient.Errors.{Error}
use sh_mcp_go.HelmClient.Releases.{Metadata, Chart, Release}
use sh_mcp_go.HelmClient.Answers.{ChartDetails, DependencyEntry, HookInfo}
use sh_mcp_go.HelmClient.Sdk.{Sdk, World, Settings}
use sh_mcp_go.HelmClient.Charts.{
  show_chart, show_chart_values, show_chart_readme, show_chart_crds, list_chart_dependencies,
  generate_values,
}
use sh_mcp_go.HelmClient.Reading.{
  get_release_revision, list_releases_filtered, get_release_notes, get_release_manifest,
  get_release_hooks, get_release_values,
}
use sh_mcp_go.Handlers.Arguments.{Arguments, Parser, release_argument, namespace_argument}
use sh_mcp_go.Handlers.Answers.{ToolResult, tool_text, tool_json, answer}
use sh_mcp_go.Handlers.Requests.{list_request}

-- The answers that are shown as JSON: of a chart, of a release, and with a count.
pub record ChartAnswer (V : Type 0) : Type 0 where
  pub chart : String
  pub version : String
  pub content : V

pub record ReleaseAnswer (V : Type 0) : Type 0 where
  pub release_name : String
  pub namespace : String
  pub content : V

pub record Counted (V : Type 0) : Type 0 where
  pub items : List V
  pub count : ℕ

abbrev pub counted : {V : Type 0} → List V → Counted V
counted items = record { items = items; count = length items }

module _ (sdk : Sdk) (settings : Settings) (parser : Parser) (error_text : Error → String) where
  -- A tool that reads a chart, by the three arguments that name it.
  abbrev pub on_chart :
      {V : Type 0}
      → (tool : String)
      → (read : (chart_name repo_url version : String) → World sdk → World sdk × Result Error V)
      → (show : (chart_name version : String) → V → ToolResult) → Arguments
      → World sdk
      → World sdk × ToolResult
  unfolding answer
  on_chart tool read show args w =
      let name = parser.parse_string args "chart_name" "" in
      let version = parser.parse_string args "version" "" in
      let (after, result) = read name (parser.parse_string args "repo_url" "") version w in
      (after, answer error_text tool (show name version) result)

  abbrev pub chart_answer :
      {V : Type 0}
      → (marshal : ChartAnswer V → Result String String) → (chart_name version : String) → V
      → ToolResult
  unfolding tool_json
  chart_answer marshal name version v =
      tool_json marshal (record { chart = name; version = version; content = v })

  -- `GenerateValuesYAML`.
  unfoldable pub generate_values_yaml_tool :
      (marshal : ChartAnswer (List (String × Any)) → Result String String)
      → Arguments
      → World sdk
      → World sdk × ToolResult
  unfolding generate_values answer tool_json
  generate_values_yaml_tool marshal =
      on_chart "generate_values_yaml" (generate_values sdk settings) (chart_answer marshal)

  -- `ShowChart`.
  unfoldable pub show_chart_tool :
      (metadata_json : Metadata → List (String × Any))
      → (equal_fold : String → String → Bool)
      → (marshal : ChartAnswer ChartDetails → Result String String) → Arguments
      → World sdk
      → World sdk × ToolResult
  unfolding show_chart answer tool_json
  show_chart_tool metadata_json equal_fold marshal =
      on_chart "show_chart" (show_chart sdk settings metadata_json equal_fold)
        (chart_answer marshal)

  -- `ShowChartValues`.
  unfoldable pub show_chart_values_tool :
      (marshal : ChartAnswer (List (String × Any)) → Result String String)
      → Arguments
      → World sdk
      → World sdk × ToolResult
  unfolding show_chart_values answer tool_json
  show_chart_values_tool marshal =
      on_chart "show_chart_values" (show_chart_values sdk settings) (chart_answer marshal)

  -- `ShowChartReadme`.
  unfoldable pub show_chart_readme_tool :
      (to_lower : String → String) → Arguments → World sdk → World sdk × ToolResult
  unfolding show_chart_readme answer
  show_chart_readme_tool to_lower =
      on_chart "show_chart_readme" (show_chart_readme sdk settings to_lower)
        (λ name version readme. tool_text readme)

  -- `ShowChartCRDs`.
  unfoldable pub show_chart_crds_tool :
      (crd_objects : Chart → List String)
      → (marshal : ChartAnswer (Counted String) → Result String String) → Arguments
      → World sdk
      → World sdk × ToolResult
  unfolding show_chart_crds answer tool_json
  show_chart_crds_tool crd_objects marshal =
      on_chart "show_chart_crds" (show_chart_crds sdk settings crd_objects)
        (λ name version crds. chart_answer marshal name version (counted crds))

  -- `ListChartDependencies`.
  unfoldable pub list_chart_dependencies_tool :
      (marshal : ChartAnswer (Counted DependencyEntry) → Result String String)
      → Arguments
      → World sdk
      → World sdk × ToolResult
  unfolding list_chart_dependencies answer tool_json
  list_chart_dependencies_tool marshal =
      on_chart "list_chart_dependencies" (list_chart_dependencies sdk settings)
        (λ name version deps. chart_answer marshal name version (counted deps))

  -- `GetReleaseNotes` and `GetReleaseManifest`.
  unfoldable pub get_release_notes_tool : Arguments → World sdk → ToolResult
  unfolding get_release_notes answer
  get_release_notes_tool args w =
      answer error_text "get_release_notes" tool_text
        (get_release_notes sdk (release_argument parser args) (namespace_argument parser args) w)

  unfoldable pub get_release_manifest_tool : Arguments → World sdk → ToolResult
  unfolding get_release_manifest answer
  get_release_manifest_tool args w =
      answer error_text "get_release_manifest" tool_text
        (get_release_manifest sdk (release_argument parser args) (namespace_argument parser args) w)

  abbrev pub release_answer : {V : Type 0} → Arguments → V → ReleaseAnswer V
  release_answer args v = record {
    release_name = release_argument parser args;
    namespace = namespace_argument parser args;
    content = v;
  }

  -- `GetReleaseHooks`.
  unfoldable pub get_release_hooks_tool :
      (marshal : ReleaseAnswer (Counted HookInfo) → Result String String)
      → Arguments
      → World sdk
      → ToolResult
  unfolding get_release_hooks answer tool_json
  get_release_hooks_tool marshal args w =
      answer error_text "get_release_hooks"
        (λ hooks. tool_json marshal (release_answer args (counted hooks)))
        (get_release_hooks sdk (release_argument parser args) (namespace_argument parser args) w)

  -- `GetReleaseValues`; the flag is shown with the values.
  unfoldable pub get_release_values_tool :
      (run_get_values : (config : String)
        → (all_values : Bool) → (name : String) → sdk.Cluster
        → Result Error (List (String × Any)))
      → (marshal : ReleaseAnswer (Bool × List (String × Any)) → Result String String) → Arguments
      → World sdk
      → ToolResult
  unfolding get_release_values answer tool_json
  get_release_values_tool run_get_values marshal args w =
      let all_values = parser.parse_boolean args "all_values" false in
      answer error_text "get_release_values"
        (λ values. tool_json marshal (release_answer args (all_values, values)))
        (get_release_values sdk run_get_values (release_argument parser args)
          (namespace_argument parser args) all_values w)

  -- `GetReleaseRevision`; `show` is `toolJSON` of `releaseToMap`.
  unfoldable pub get_release_revision_tool :
      (show : Release → ToolResult) → Arguments → World sdk → ToolResult
  unfolding get_release_revision answer
  get_release_revision_tool show args w = answer error_text "get_release_revision" show (
      get_release_revision sdk (release_argument parser args) (namespace_argument parser args)
        (parser.parse_int args "version" 0) w)

  -- `ListReleasesFiltered`; `to_map` is `releaseToMap`.
  unfoldable pub list_releases_filtered_tool :
      {M : Type 0}
      → (to_lower : String → String) → (to_map : Release → M)
      → (marshal : Counted M → Result String String) → Arguments
      → World sdk
      → ToolResult
  unfolding list_releases_filtered list_request answer tool_json
  list_releases_filtered_tool to_lower to_map marshal args w =
      answer error_text "list_releases_filtered"
        (λ releases. tool_json marshal (counted (map to_map releases)))
        (list_releases_filtered sdk to_lower (list_request parser args) w)
