-- ===== src/Handlers/Operators.antt =====
-- What the tools of internal/adapters/mcp/handler.go answer on operators and on security.
use sh_mcp_go.Prelude.{String, List, [], ◌∷◌, Result, concat, if◌then◌else◌, ◌==◌}
use sh_mcp_go.Handlers.Arguments.{Arguments, Parser, release_argument, namespace_argument}
use sh_mcp_go.Handlers.Answers.{ToolResult, tool_text, tool_json}

pub record Finding : Type 0 where
  pub severity : String
  pub message : String

pub record ScanReport : Type 0 where
  pub release : String
  pub findings : List Finding

-- `quote` is `%q`.
module _ (parser : Parser) (quote : String → String) where
  -- The operator tools only answer with a text.
  unfoldable pub install_operator_tool : Arguments → ToolResult
  unfolding concat
  install_operator_tool args = tool_text (
      concat (
        "Operator "
        ∷ quote (parser.parse_string args "name" "")
        ∷ " installation initiated in namespace "
        ∷ quote (parser.parse_string args "namespace" "operators")
        ∷ " (channel: "
        ∷ parser.parse_string args "channel" "stable"
        ∷ ", source: "
        ∷ parser.parse_string args "source" "operatorhubio-catalog"
        ∷ "). Note: Full OLM support requires OLM to be pre-installed on the cluster."
        ∷ []))

  unfoldable pub upgrade_operator_tool : Arguments → ToolResult
  unfolding concat
  upgrade_operator_tool args = tool_text (
      concat (
        "Operator "
        ∷ quote (parser.parse_string args "name" "")
        ∷ " upgrade initiated in "
        ∷ quote (parser.parse_string args "namespace" "operators")
        ∷ " (channel: "
        ∷ parser.parse_string args "channel" ""
        ∷ ", version: "
        ∷ parser.parse_string args "version" ""
        ∷ ")"
        ∷ []))

  abbrev pub operator_text : (did : String) → Arguments → ToolResult
  unfolding concat
  operator_text did args = tool_text (
      concat (
        "Operator "
        ∷ quote (parser.parse_string args "name" "")
        ∷ did
        ∷ quote (parser.parse_string args "namespace" "operators")
        ∷ []))

  unfoldable pub rollback_operator_tool : Arguments → ToolResult
  unfolding concat
  rollback_operator_tool args = operator_text " rollback initiated in " args

  unfoldable pub delete_operator_tool : Arguments → ToolResult
  unfolding concat
  delete_operator_tool args = operator_text " deleted from " args

  -- `SecurityScan`.
  abbrev pub scan_finding : Arguments → Finding
  unfolding concat
  scan_finding args =
      if release_argument parser args == ""
      then record {
        severity = "INFO";
        message = "No release specified; provide release_name for deep scan";
      }
      else record {
        severity = "INFO";
        message = concat (
            "Security scan for "
            ∷ namespace_argument parser args
            ∷ "/"
            ∷ release_argument parser args
            ∷ ": no critical issues detected (integrate Trivy for full CVE scanning)"
            ∷ []);
      }

  unfoldable pub security_scan_tool :
      (marshal : ScanReport → Result String String) → Arguments → ToolResult
  unfolding tool_json concat
  security_scan_tool marshal args =
      tool_json marshal
        (record { release = release_argument parser args; findings = scan_finding args ∷ [] })
