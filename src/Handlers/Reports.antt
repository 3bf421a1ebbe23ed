-- ===== src/Handlers/Reports.antt =====
-- What the tools of internal/adapters/mcp/handler.go answer on the health of a release.
use sh_mcp_go.Prelude.{
  String, Bool, true, false, List, [], ◌∷◌, Result, ok, err, concat, Any, if◌then◌else◌,
}
use sh_mcp_go.KubernetesClient.Workloads.{ResourceHealth}
use sh_mcp_go.Handlers.Arguments.{
  Arguments, Parser, extract_deps, release_argument, namespace_argument,
}
use sh_mcp_go.Handlers.Answers.{ToolResult, tool_text, tool_json, answer}

pub record HealthReport : Type 0 where
  pub release_name : String
  pub namespace : String
  pub healthy : Bool
  pub resources : List ResourceHealth

pub record ReleaseHealth : Type 0 where
  pub release_name : String
  pub namespace : String
  pub resources : List ResourceHealth

pub record DependencyReport : Type 0 where
  pub chart : String
  pub version : String
  pub dependencies : List String

-- The loop of `HealthCheck`.
unfoldable pub all_ready : List ResourceHealth → Bool
all_ready [] = true
all_ready (h ∷ health) = if h.ready then all_ready health else false

module _ (parser : Parser) where
  module _ {E : Type 0} (error_text : E → String) where
    abbrev pub health_report : Arguments → List ResourceHealth → HealthReport
    unfolding all_ready
    health_report args health = record {
      release_name = release_argument parser args;
      namespace = namespace_argument parser args;
      healthy = all_ready health;
      resources = health;
    }

    -- `HealthCheck`, by the answer to `GetHealthSummary`.
    unfoldable pub health_check_tool :
        (summary : (namespace release_name : String) → Result E (List ResourceHealth))
        → (marshal : HealthReport → Result String String) → Arguments
        → ToolResult
    unfolding answer tool_json all_ready
    health_check_tool summary marshal args =
        answer error_text "health_check" (λ health. tool_json marshal (health_report args health))
          (summary (namespace_argument parser args) (release_argument parser args))

    abbrev pub release_health : Arguments → List ResourceHealth → ReleaseHealth
    release_health args health = record {
      release_name = release_argument parser args;
      namespace = namespace_argument parser args;
      resources = health;
    }

    -- `ValidateRelease`.
    unfoldable pub validate_release_tool :
        (summary : (namespace release_name : String) → Result E (List ResourceHealth))
        → (marshal : ReleaseHealth → Result String String) → Arguments
        → ToolResult
    unfolding answer tool_json
    validate_release_tool summary marshal args =
        answer error_text "validate_release"
          (λ health. tool_json marshal (release_health args health))
          (summary (namespace_argument parser args) (release_argument parser args))

    -- `GenerateRCA`.
    unfoldable pub generate_rca_tool :
        (rca : (release_name namespace : String) → Result E String) → Arguments → ToolResult
    unfolding answer
    generate_rca_tool rca args =
        answer error_text "generate_rca" tool_text
          (rca (release_argument parser args) (namespace_argument parser args))

    -- What `AnalyzeFailure` puts in for the analysis.
    abbrev pub analysis_or_error : Result E String → String
    unfolding concat
    analysis_or_error (ok rca) = rca
    analysis_or_error (err e) = concat ("Could not analyse: " ∷ error_text e ∷ [])

    -- `AnalyzeFailure`.
    unfoldable pub analyze_failure_tool :
        (rca : (release_name namespace : String) → Result E String) → Arguments → ToolResult
    unfolding concat
    analyze_failure_tool rca args =
        let name = release_argument parser args in
        let namespace = namespace_argument parser args in
        tool_text (
          concat (
            "Failure Analysis for "
            ∷ namespace
            ∷ "/"
            ∷ name
            ∷ "\n\nError: "
            ∷ parser.parse_string args "error_message" ""
            ∷ "\n\n"
            ∷ analysis_or_error (rca name namespace)
            ∷ "\n\nRecommended actions:\n1. Check pod logs: kubectl logs -n "
            ∷ namespace
            ∷ " -l app.kubernetes.io/instance="
            ∷ name
            ∷ "\n2. Describe pods: kubectl describe pods -n "
            ∷ namespace
            ∷ " -l app.kubernetes.io/instance="
            ∷ name
            ∷ "\n3. Check events: kubectl get events -n "
            ∷ namespace
            ∷ " --sort-by=.lastTimestamp\n4. Consider rolling back: use rollback_chart tool"
            ∷ []))

    -- `DependencyAnalysis`, by the answer to `GenerateValues`.
    unfoldable pub dependency_analysis_tool :
        (generate_values : (chart_name repo_url version : String) → Result E (List (String × Any)))
        → (marshal : DependencyReport → Result String String) → Arguments
        → ToolResult
    unfolding answer tool_json extract_deps
    dependency_analysis_tool generate_values marshal args =
        let chart_name = parser.parse_string args "chart_name" "" in
        let version = parser.parse_string args "version" "" in
        answer error_text "dependency_analysis"
          (λ values.
            tool_json marshal (record {
              chart = chart_name;
              version = version;
              dependencies = extract_deps values;
            }))
          (generate_values chart_name (parser.parse_string args "repo_url" "") version)
