-- ===== src/Handlers/Helm.antt =====
-- The tools of internal/adapters/mcp/handler.go that change or render releases by the Helm port.
use sh_mcp_go.Prelude.{
  ℕ, String, Option, none, some, List, [], ◌∷◌, map, Result, concat, if◌then◌else◌, ◌==◌,
}
use sh_mcp_go.HelmClient.Errors.{Error}
use sh_mcp_go.HelmClient.Releases.{Release, Metadata}
use sh_mcp_go.HelmClient.Answers.{TestResult}
use sh_mcp_go.HelmClient.Sdk.{Sdk, World, Settings}
use sh_mcp_go.HelmClient.Changes.{install, upgrade, rollback, uninstall, template_chart}
use sh_mcp_go.HelmClient.Testing.{test_release}
use sh_mcp_go.Handlers.Arguments.{Arguments, Parser, comma_list, default_timeout_seconds}
use sh_mcp_go.Handlers.Answers.{ToolResult, tool_text, answer, confirm}
use sh_mcp_go.Handlers.Requests.{
  install_request, upgrade_request, rollback_request, uninstall_request, template_request,
}

-- `releaseToMap`; the namespace and the application's version are of the SDK.
pub record ReleaseMap : Type 0 where
  pub name : String
  pub namespace : String
  pub revision : ℕ
  pub status : String
  pub chart : String
  pub chart_version : String
  pub app_version : String
  pub deployed_at : String
  pub notes : String

abbrev pub metadata_of : Release → Option Metadata
metadata_of r = elim (r.chart) [ none ↦ none | some c ↦ c.metadata ]

module _ (time_text : ℕ → String) (namespace_of : Release → String)
    (app_version_of : Metadata → String) where
  unfoldable pub release_to_map : Release → ReleaseMap
  release_to_map r = record {
    name = r.name;
    namespace = namespace_of r;
    revision = r.version;
    status = elim (r.info) [ none ↦ "" | some info ↦ info.status ];
    chart = elim (metadata_of r) [ none ↦ "" | some m ↦ m.name ];
    chart_version = elim (metadata_of r) [ none ↦ "" | some m ↦ m.version ];
    app_version = elim (metadata_of r) [ none ↦ "" | some m ↦ app_version_of m ];
    deployed_at = elim (r.info) [ none ↦ "" | some info ↦ time_text (info.last_deployed) ];
    notes = elim (r.info) [ none ↦ "" | some info ↦ info.notes ];
  }

module _ (sdk : Sdk) (settings : Settings) (parser : Parser) (error_text : Error → String) where
  -- What a call answers, with the world after it.
  abbrev pub reply :
      {V : Type 0}
      → (tool : String) → (V → ToolResult)
      → World sdk × Result Error V
      → World sdk × ToolResult
  unfolding answer
  reply tool shown (w, result) = (w, answer error_text tool shown result)

  abbrev pub reply_done : (tool text : String) → World sdk × Option Error → World sdk × ToolResult
  unfolding confirm
  reply_done tool text (w, e) = (w, confirm error_text tool text e)

  -- `HelmInstall`; `show` is `toolJSON` of `releaseToMap`.
  unfoldable pub helm_install_tool :
      (show : Release → ToolResult) → Arguments → World sdk → World sdk × ToolResult
  unfolding answer install install_request
  helm_install_tool show args w =
      reply "helm_install" show (install sdk settings (install_request parser args) w)

  -- `HelmUpgrade`.
  unfoldable pub helm_upgrade_tool :
      (show : Release → ToolResult) → Arguments → World sdk → World sdk × ToolResult
  unfolding answer upgrade upgrade_request
  helm_upgrade_tool show args w =
      reply "helm_upgrade" show (upgrade sdk settings (upgrade_request parser args) w)

  -- `HelmRollback`; `quote` is `%q`, `decimal` is `%d`.
  unfoldable pub helm_rollback_tool :
      (quote : String → String)
      → (decimal : ℕ → String) → Arguments
      → World sdk
      → World sdk × ToolResult
  unfolding confirm rollback rollback_request concat
  helm_rollback_tool quote decimal args w =
      reply_done "helm_rollback"
        (concat (
          "Release "
          ∷ quote (parser.parse_string args "release_name" "")
          ∷ " rolled back to revision "
          ∷ decimal (parser.parse_int args "version" 0)
          ∷ " successfully"
          ∷ []))
        (rollback sdk settings (rollback_request parser args) w)

  -- `HelmUninstall`.
  unfoldable pub helm_uninstall_tool :
      (quote : String → String) → Arguments → World sdk → World sdk × ToolResult
  unfolding confirm uninstall uninstall_request concat
  helm_uninstall_tool quote args w =
      reply_done "helm_uninstall"
        (concat (
          "Release "
          ∷ quote (parser.parse_string args "release_name" "")
          ∷ " uninstalled successfully"
          ∷ []))
        (uninstall sdk settings (uninstall_request parser args) w)

  -- `TemplateChart`.
  unfoldable pub template_chart_tool : Arguments → World sdk → World sdk × ToolResult
  unfolding answer template_chart template_request
  template_chart_tool args w =
      reply "template_chart" tool_text
        (template_chart sdk settings (template_request parser args) w)

  -- The filters of `TestRelease`; `code_points` and `to_text` go between a text and its code points.
  unfoldable pub test_filters :
      (code_points : String → List ℕ) → (to_text : List ℕ → String) → Arguments → List String
  unfolding comma_list
  test_filters code_points to_text args =
      let filter = parser.parse_string args "filter" "" in
      if filter == "" then [] else map to_text (comma_list (code_points filter))

  -- `TestRelease`.
  unfoldable pub test_release_tool :
      (code_points : String → List ℕ)
      → (to_text : List ℕ → String) → (show : TestResult → ToolResult) → Arguments
      → World sdk
      → World sdk × ToolResult
  unfolding answer test_release test_filters
  test_release_tool code_points to_text show args w = reply "test_release" show (
      test_release sdk settings (parser.parse_string args "release_name" "")
        (parser.parse_string args "namespace" "default")
        (parser.parse_int args "timeout_seconds" default_timeout_seconds)
        (test_filters code_points to_text args) w)
