-- ===== src/Handlers/Lifecycle.antt =====
-- The tools of internal/adapters/mcp/handler.go over the deployment service.
use sh_mcp_go.Prelude.{ℕ, String, Bool, true, false, List, [], ◌∷◌, Result, concat}
use sh_mcp_go.Deployment.Errors.{Error}
use sh_mcp_go.Deployment.Events.{Moment}
use sh_mcp_go.Application.Commands.{
  InstallChartCommand, UpgradeChartCommand, RollbackChartCommand, UninstallChartCommand,
  ChartResult,
}
use sh_mcp_go.Application.Ports.{Call, Ports}
use sh_mcp_go.Application.Service.{install_chart, upgrade_chart, rollback_chart, uninstall_chart}
use sh_mcp_go.Handlers.Arguments.{Arguments, Parser, values_argument, default_timeout_seconds}
use sh_mcp_go.Handlers.Answers.{ToolResult, tool_text, tool_json, answer}

module _ (parser : Parser) where
  unfoldable pub install_command : Arguments → InstallChartCommand
  unfolding values_argument
  install_command args = record {
    release_name = parser.parse_string args "release_name" "";
    namespace = parser.parse_string args "namespace" "default";
    chart_name = parser.parse_string args "chart_name" "";
    repo_url = parser.parse_string args "repo_url" "";
    version = parser.parse_string args "version" "";
    values = values_argument args;
    dry_run = parser.parse_boolean args "dry_run" false;
    wait = parser.parse_boolean args "wait" true;
    atomic = parser.parse_boolean args "atomic" true;
    create_ns = parser.parse_boolean args "create_namespace" true;
    timeout_secs = parser.parse_int args "timeout_seconds" default_timeout_seconds;
  }

  unfoldable pub upgrade_command : Arguments → UpgradeChartCommand
  unfolding values_argument
  upgrade_command args = record {
    release_name = parser.parse_string args "release_name" "";
    namespace = parser.parse_string args "namespace" "default";
    chart_name = parser.parse_string args "chart_name" "";
    repo_url = parser.parse_string args "repo_url" "";
    version = parser.parse_string args "version" "";
    values = values_argument args;
    dry_run = parser.parse_boolean args "dry_run" false;
    wait = parser.parse_boolean args "wait" true;
    atomic = parser.parse_boolean args "atomic" true;
    reuse_values = parser.parse_boolean args "reuse_values" false;
    reset_values = parser.parse_boolean args "reset_values" false;
    force = false;
    timeout_secs = 0;
  }

  unfoldable pub rollback_command : Arguments → RollbackChartCommand
  rollback_command args = record {
    release_name = parser.parse_string args "release_name" "";
    namespace = parser.parse_string args "namespace" "default";
    version = parser.parse_int args "version" 0;
    dry_run = parser.parse_boolean args "dry_run" false;
    wait = parser.parse_boolean args "wait" true;
    timeout_secs = 0;
  }

  unfoldable pub uninstall_command : Arguments → UninstallChartCommand
  uninstall_command args = record {
    release_name = parser.parse_string args "release_name" "";
    namespace = parser.parse_string args "namespace" "default";
    dry_run = parser.parse_boolean args "dry_run" false;
    keep_history = parser.parse_boolean args "keep_history" false;
    timeout_secs = 0;
  }

  -- `quote` is `%q`, `marshal` is `json.MarshalIndent`.
  module _ (ports : Ports) (is_semver : String → Bool)
      (marshal : ChartResult → Result String String) (quote : String → String) where
    abbrev pub after :
        {V : Type 0}
        → (tool : String) → (V → ToolResult)
        → List Call × Result Error V
        → List Call × ToolResult
    unfolding answer
    after tool shown (h, result) = (h, answer (ports.error_text) tool shown result)

    -- `InstallChart`; `id` is the id of a new aggregate.
    unfoldable pub install_chart_tool :
        (clock : ℕ → Moment) → (id : String) → Arguments → List Call → List Call × ToolResult
    unfolding install_chart install_command answer tool_json
    install_chart_tool clock id args h =
        after "install_chart" (tool_json marshal)
          (install_chart ports clock is_semver id (install_command args) h)

    -- `UpgradeChart`.
    unfoldable pub upgrade_chart_tool :
        (clock : ℕ → Moment) → Arguments → List Call → List Call × ToolResult
    unfolding upgrade_chart upgrade_command answer tool_json
    upgrade_chart_tool clock args h =
        after "upgrade_chart" (tool_json marshal)
          (upgrade_chart ports clock (upgrade_command args) h)

    abbrev pub release_text : (release_name what : String) → ToolResult
    unfolding concat
    release_text release_name what =
        tool_text (concat ("Release " ∷ quote release_name ∷ what ∷ []))

    -- `RollbackChart`.
    unfoldable pub rollback_chart_tool :
        (clock : ℕ → Moment) → Arguments → List Call → List Call × ToolResult
    unfolding rollback_chart rollback_command answer concat
    rollback_chart_tool clock args h =
        after "rollback_chart"
          (λ done.
            release_text (parser.parse_string args "release_name" "") " rolled back successfully")
          (rollback_chart ports clock (rollback_command args) h)

    -- `UninstallChart`.
    unfoldable pub uninstall_chart_tool :
        (clock : ℕ → Moment) → Arguments → List Call → List Call × ToolResult
    unfolding uninstall_chart uninstall_command answer concat
    uninstall_chart_tool clock args h =
        after "uninstall_chart"
          (λ done.
            release_text (parser.parse_string args "release_name" "") " uninstalled successfully")
          (uninstall_chart ports clock (uninstall_command args) h)
