-- ===== src/Handlers/Advice.antt =====
-- What the tools of internal/adapters/mcp/handler.go answer on the version and the status of a release.
use sh_mcp_go.Prelude.{
  ℕ, String, Bool, not, ◌&&◌, none, some, [], ◌∷◌, Result, ok, err, concat, ◌==◌,
}
use sh_mcp_go.HelmClient.Releases.{Release}
use sh_mcp_go.Handlers.Arguments.{Arguments, Parser, release_argument, namespace_argument}
use sh_mcp_go.Handlers.Answers.{ToolResult, tool_error, tool_json}
use sh_mcp_go.Handlers.Helm.{metadata_of}

pub record UpgradeAdvice : Type 0 where
  pub release_name : String
  pub current_version : String
  pub latest_version : String
  pub upgrade_recommended : Bool
  pub notes : String

pub record StatusReport : Type 0 where
  pub release_name : String
  pub namespace : String
  pub revision : ℕ
  pub status : String
  pub chart : String
  pub chart_version : String
  pub deployed_at : String

module _ (parser : Parser) where
  module _ {E : Type 0} (error_text : E → String) where
    abbrev pub chart_name_of : Release → String
    chart_name_of rel = elim (metadata_of rel) [ none ↦ "" | some m ↦ m.name ]

    abbrev pub chart_version_of : Release → String
    chart_version_of rel = elim (metadata_of rel) [ none ↦ "" | some m ↦ m.version ]

    abbrev pub version_or_empty : Result E String → String
    version_or_empty (ok version) = version
    version_or_empty (err e) = ""

    abbrev pub upgrade_advice : (release_name current latest : String) → UpgradeAdvice
    unfolding concat
    upgrade_advice release_name current latest = record {
      release_name = release_name;
      current_version = current;
      latest_version = latest;
      upgrade_recommended = not (latest == "") && not (latest == current);
      notes = concat ("Use upgrade_chart with version=" ∷ latest ∷ " to upgrade" ∷ []);
    }

    abbrev pub getting_failed : (what : String) → E → ToolResult
    unfolding concat
    getting_failed what e = tool_error (concat (what ∷ error_text e ∷ []))

    -- `RecommendUpgrade`: the version is looked up without a repository's URL, and its error is dropped.
    unfoldable pub recommend_upgrade_tool :
        (get_release : (release_name namespace : String) → Result E Release)
        → (resolve_version : (chart_name repo_url constraint : String) → Result E String)
        → (marshal : UpgradeAdvice → Result String String) → Arguments
        → ToolResult
    unfolding tool_json concat
    recommend_upgrade_tool get_release resolve_version marshal args =
        elim (get_release (release_argument parser args) (namespace_argument parser args)) [
          | err e ↦ getting_failed "getting release: " e
          | ok rel ↦ tool_json marshal (
              upgrade_advice (release_argument parser args) (chart_version_of rel)
                (version_or_empty (resolve_version (chart_name_of rel) "" "")))
        ]

    abbrev pub status_report : (time_text : ℕ → String) → Arguments → Release → StatusReport
    status_report time_text args rel = record {
      release_name = release_argument parser args;
      namespace = namespace_argument parser args;
      revision = rel.version;
      status = elim (rel.info) [ none ↦ "" | some info ↦ info.status ];
      chart = chart_name_of rel;
      chart_version = chart_version_of rel;
      deployed_at = elim (rel.info) [ none ↦ "" | some info ↦ time_text (info.last_deployed) ];
    }

    -- `DeploymentStatus`, which `ReleaseStatus` calls.
    unfoldable pub deployment_status_tool :
        (get_release : (release_name namespace : String) → Result E Release)
        → (time_text : ℕ → String) → (marshal : StatusReport → Result String String) → Arguments
        → ToolResult
    unfolding tool_json concat
    deployment_status_tool get_release time_text marshal args =
        elim (get_release (release_argument parser args) (namespace_argument parser args)) [
          | err e ↦ getting_failed "getting release status: " e
          | ok rel ↦ tool_json marshal (status_report time_text args rel)
        ]
