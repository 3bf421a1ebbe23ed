-- ===== src/Application/Requests.antt =====
-- Sequences of requests to internal/application/deployment/service.go.
use sh_mcp_go.Prelude.{ℕ, String, Bool, List, [], ◌∷◌}
use sh_mcp_go.Deployment.Events.{Moment}
use sh_mcp_go.Application.Commands.{
  InstallChartCommand, UpgradeChartCommand, RollbackChartCommand, UninstallChartCommand,
}
use sh_mcp_go.Application.Ports.{Call, Ports}
use sh_mcp_go.Application.Service.{install_chart, upgrade_chart, rollback_chart, uninstall_chart}

-- A command, with the id that is generated for a new aggregate.
pub data Request : Type 0 where
  install : (id : String) → InstallChartCommand → Request
  upgrade : UpgradeChartCommand → Request
  rollback : RollbackChartCommand → Request
  uninstall : UninstallChartCommand → Request

module _ (ports : Ports) (is_semver : String → Bool) where
  -- The calls that have been made when the method returns.
  unfoldable pub handle : (clock : ℕ → Moment) → Request → List Call → List Call
  unfolding install_chart upgrade_chart rollback_chart uninstall_chart
  handle clock (install id cmd) h = (install_chart ports clock is_semver id cmd h).0
  handle clock (upgrade cmd) h = (upgrade_chart ports clock cmd h).0
  handle clock (rollback cmd) h = (rollback_chart ports clock cmd h).0
  handle clock (uninstall cmd) h = (uninstall_chart ports clock cmd h).0

  -- One request after another, each with its clock.
  unfoldable pub serve : List ((ℕ → Moment) × Request) → List Call → List Call
  unfolding handle
  serve [] h = h
  serve ((clock, request) ∷ requests) h = serve requests (handle clock request h)
