-- ===== src/Samples/Service.antt =====
-- Ports that accept everything: the theorems on internal/application/deployment at concrete inputs.
use sh_mcp_go.Prelude.{ℕ, ◌≡◌, ◌↔◌, some, true, false, none, List, [], ◌∷◌, ok, ok_inj, subst, refl}
use sh_mcp_go.Deployment.Errors.{Error}
use sh_mcp_go.Deployment.Events.{Moment}
use sh_mcp_go.Deployment.Entity.{Deployment}
use sh_mcp_go.Application.Commands.{
  RollbackChartCommand, InstallChartCommand, UpgradeChartCommand, UninstallChartCommand,
}
use sh_mcp_go.Application.Ports.{install, upgrade, delete, Ports}
use sh_mcp_go.Application.Service.{
  rollback_chart, uninstall_chart, uninstall_request, install_request, upgrade_request,
  install_chart, upgrade_chart,
}
use sh_mcp_go.Application.Requests.{Request, serve}
use sh_mcp_go.Application.Rules.{IsOf}
use sh_mcp_go.Application.Guards.{FindsNamed, IsGuarded}
use sh_mcp_go.Application.WriteAhead.{serve-IsGuarded}
use sh_mcp_go.Application.Outcomes.{Reported}
use sh_mcp_go.Application.Reports.{install_chart-Reported, upgrade_chart-Reported}
use sh_mcp_go.Application.Removals.{
  RolledBack, rollback_chart-RolledBack, uninstalled, searched, uninstall_chart-delete_iff,
}
use sh_mcp_go.Samples.Deployments.{moment, nginx, no_semver}

abbrev pub accepting : Ports
accepting = record {
  ensure_namespace = λ _ _. none;
  save = λ _ _. none;
  find = λ _ name ns. ok (record nginx { name = name; namespace = ns });
  install = λ _ req.
      ok (record { name = req.release_name; namespace = req.namespace; version = 1; notes = none });
  upgrade = λ _ req.
      ok (record { name = req.release_name; namespace = req.namespace; version = 2; notes = none });
  rollback = λ _ _. none;
  uninstall = λ _ _. none;
  delete = λ _ _. none;
  publish = λ _ _. none;
  has_publisher = true;
  error_text = λ _. "error";
}

pub accepting-FindsNamed : FindsNamed accepting
accepting-FindsNamed h name ns d found =
    subst (IsOf name ns) (ok_inj found) (record { named = refl; placed = refl })

abbrev pub clock : ℕ → Moment
clock n = moment

abbrev install_web : InstallChartCommand
install_web = record {
  release_name = "web";
  namespace = "default";
  chart_name = "nginx";
  repo_url = "https://charts.example.com";
  version = "";
  values = [];
  dry_run = false;
  wait = true;
  atomic = false;
  create_ns = true;
  timeout_secs = 300;
}

abbrev upgrade_web : UpgradeChartCommand
upgrade_web = record {
  release_name = "web";
  namespace = "default";
  chart_name = "nginx";
  repo_url = "https://charts.example.com";
  version = "2.0.0";
  values = [];
  dry_run = false;
  wait = true;
  atomic = false;
  reuse_values = false;
  reset_values = false;
  force = false;
  timeout_secs = 300;
}

abbrev uninstall_web : UninstallChartCommand
uninstall_web = record {
  release_name = "web";
  namespace = "default";
  dry_run = false;
  keep_history = false;
  timeout_secs = 300;
}

abbrev requests : List ((ℕ → Moment) × Request)
requests =
    (clock, Request.install "id-1" install_web) ∷ (clock, Request.uninstall uninstall_web) ∷ []

serve-IsGuarded_example : IsGuarded accepting (serve accepting no_semver requests [])
serve-IsGuarded_example = serve-IsGuarded accepting accepting-FindsNamed no_semver requests [] tt

install_chart-Reported_example :
    Reported accepting clock "helm install"
      (λ k. accepting.install k (install_request install_web))
      (install (install_request install_web))
      []
      (install_chart accepting clock no_semver "id-1" install_web [])
install_chart-Reported_example =
    install_chart-Reported accepting clock install_web [] no_semver "id-1"

upgrade_chart-Reported_example :
    Reported accepting clock "helm upgrade"
      (λ k. accepting.upgrade k (upgrade_request upgrade_web))
      (upgrade (upgrade_request upgrade_web))
      []
      (upgrade_chart accepting clock upgrade_web [])
upgrade_chart-Reported_example = upgrade_chart-Reported accepting clock upgrade_web []

abbrev rollback_web : RollbackChartCommand
rollback_web = record {
  release_name = "web";
  namespace = "default";
  version = 1;
  dry_run = false;
  wait = true;
  timeout_secs = 300;
}

rollback_chart-RolledBack_example :
    RolledBack accepting clock rollback_web [] (rollback_chart accepting clock rollback_web [])
rollback_chart-RolledBack_example = rollback_chart-RolledBack accepting clock rollback_web []

-- A dry run.
abbrev dry_uninstall : UninstallChartCommand
dry_uninstall = record {
  release_name = "web";
  namespace = "default";
  dry_run = true;
  keep_history = false;
  timeout_secs = 300;
}

uninstall_chart-delete_iff_example :
    (((uninstall_chart accepting clock dry_uninstall []).1 ≡ ok tt)
      ↔ (accepting.uninstall [] (uninstall_request dry_uninstall) ≡ none))
    × (((uninstall_chart accepting clock dry_uninstall []).0
          ≡ delete "id-1" ∷ searched accepting clock dry_uninstall [])
        ↔ ((accepting.uninstall [] (uninstall_request dry_uninstall) ≡ none)
            × (d : Deployment) × (accepting.find
                  (uninstalled accepting clock dry_uninstall [])
                  "web"
                  "default"
                ≡ ok d)
            × (d.id ≡ "id-1")))
    × (((uninstall_chart accepting clock dry_uninstall []).0
          ≡ uninstalled accepting clock dry_uninstall [])
        ↔ ((e : Error) × (accepting.uninstall [] (uninstall_request dry_uninstall) ≡ some e)))
uninstall_chart-delete_iff_example =
    uninstall_chart-delete_iff accepting clock dry_uninstall [] "id-1"
