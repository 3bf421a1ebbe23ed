-- ===== src/Application/Service.antt =====
-- internal/application/deployment/service.go.
use sh_mcp_go.Prelude.{
  ℕ, String, Bool, not, ◌&&◌, ◌||◌, none, some, List, ok, err, is_nil, if◌then◌else◌,
}
use sh_mcp_go.Deployment.Errors.{Error, wrapped}
use sh_mcp_go.Deployment.Chart.{ChartReference, repo}
use sh_mcp_go.Deployment.Events.{Moment}
use sh_mcp_go.Deployment.Entity
use sh_mcp_go.Deployment.Entity.{Deployment, new}
use sh_mcp_go.Application.Commands.{
  InstallChartCommand, UpgradeChartCommand, RollbackChartCommand, UninstallChartCommand,
  ChartResult, HelmInstallRequest, HelmUpgradeRequest, HelmRollbackRequest, HelmUninstallRequest,
}
use sh_mcp_go.Application.Ports.{
  Call, ensure_namespace, save, find, delete, install, upgrade, rollback, uninstall, publish,
  Release, Ports, Run, attempt, attempt_value, transition, dropped, return_error, return_wrapped,
}

abbrev pub repo_chart : (name repo_url version : String) → ChartReference
repo_chart name repo_url version = record {
  name = name;
  repo_url = repo_url;
  version = version;
  source = repo;
}

abbrev pub install_request : InstallChartCommand → HelmInstallRequest
install_request cmd = record {
  release_name = cmd.release_name;
  namespace = cmd.namespace;
  chart_name = cmd.chart_name;
  repo_url = cmd.repo_url;
  version = cmd.version;
  values = cmd.values;
  dry_run = cmd.dry_run;
  wait = cmd.wait;
  atomic = cmd.atomic;
  create_ns = cmd.create_ns;
  timeout = cmd.timeout_secs;
}

abbrev pub upgrade_request : UpgradeChartCommand → HelmUpgradeRequest
upgrade_request cmd = record {
  release_name = cmd.release_name;
  namespace = cmd.namespace;
  chart_name = cmd.chart_name;
  repo_url = cmd.repo_url;
  version = cmd.version;
  values = cmd.values;
  dry_run = cmd.dry_run;
  wait = cmd.wait;
  atomic = cmd.atomic;
  reuse_values = cmd.reuse_values;
  reset_values = cmd.reset_values;
  force = cmd.force;
  timeout = cmd.timeout_secs;
}

abbrev pub rollback_request : RollbackChartCommand → HelmRollbackRequest
rollback_request cmd = record {
  release_name = cmd.release_name;
  namespace = cmd.namespace;
  version = cmd.version;
  dry_run = cmd.dry_run;
  wait = cmd.wait;
  timeout = cmd.timeout_secs;
}

abbrev pub uninstall_request : UninstallChartCommand → HelmUninstallRequest
uninstall_request cmd = record {
  release_name = cmd.release_name;
  namespace = cmd.namespace;
  dry_run = cmd.dry_run;
  keep_history = cmd.keep_history;
  timeout = cmd.timeout_secs;
}

abbrev pub chart_result : Deployment → Release → ChartResult
chart_result d rel = record {
  deployment_id = d.id;
  release_name = rel.name;
  namespace = rel.namespace;
  revision = rel.version;
  status = d.status;
  notes = elim rel.notes [ none ↦ "" | some notes ↦ notes ];
}

-- `clock n` is what the clock and the id generator answer in the n-th method call on the aggregate.
module _ (ports : Ports) (clock : ℕ → Moment) where
  -- `publishEvents`; nothing reads the aggregate's events after it, and the publisher's error is only
  -- logged.
  unfoldable pub publish_events : Deployment → List Call → List Call
  unfolding Entity.drain_events
  publish_events d h =
      let (_, events) = Entity.drain_events d in
      if ports.has_publisher && not (is_nil events)
      then dropped (ports.publish h events) (publish events) h
      else h

  -- What the three methods do where Helm returns an error: the error of the save is dropped.
  unfoldable pub give_up : {A : Type 0} → (what : String) → Deployment → Error → List Call → Run A
  unfolding Entity.mark_failed publish_events
  give_up what d e h =
      let (failed, _) = Entity.mark_failed (clock 2) (ports.error_text e) d in
      (publish_events failed (dropped (ports.save h failed) (save failed) h), err (wrapped what e))

  -- What `InstallChart` and `UpgradeChart` do with Helm's release.
  unfoldable pub finish : Deployment → Release → List Call → Run ChartResult
  unfolding Entity.mark_succeeded publish_events
  finish d rel h = transition (Entity.mark_succeeded (clock 2) rel.version d) h (λ done.
      attempt (ports.save h done) (save done) return_error h
        (λ k. (publish_events done k, ok (chart_result done rel))))

  -- What follows `New` and the first save in `InstallChart`.
  unfoldable pub deploy : InstallChartCommand → Deployment → List Call → Run ChartResult
  unfolding Entity.start_deployment give_up finish
  deploy cmd d h = transition (Entity.start_deployment (clock 1) d) h (λ started.
      attempt (ports.save h started) (save started) return_error h (λ k.
        attempt_value (ports.install k (install_request cmd)) (install (install_request cmd))
          (give_up "helm install" started) k (finish started)))

  -- What follows `EnsureNamespace`.
  unfoldable pub save_new : InstallChartCommand → Deployment → List Call → Run ChartResult
  unfolding deploy
  save_new cmd d h =
      attempt (ports.save h d) (save d) (return_wrapped "saving deployment") h (deploy cmd d)

  -- `InstallChart`.
  unfoldable pub install_chart :
      (is_semver : String → Bool)
      → (id : String) → InstallChartCommand
      → List Call
      → Run ChartResult
  unfolding new save_new
  install_chart is_semver id cmd h =
      elim (new is_semver (clock 0) id cmd.release_name cmd.namespace
        (repo_chart cmd.chart_name cmd.repo_url cmd.version) cmd.values) [
          | err e ↦ return_wrapped "creating deployment aggregate" e h
          | ok d ↦
              if cmd.create_ns || not cmd.dry_run
              then attempt (ports.ensure_namespace h cmd.namespace) (ensure_namespace cmd.namespace)
                  (return_wrapped "ensuring namespace") h (save_new cmd d)
              else save_new cmd d h
        ]

  -- What `UpgradeChart` does with the aggregate that it finds.
  unfoldable pub upgrade_found : UpgradeChartCommand → Deployment → List Call → Run ChartResult
  unfolding Entity.start_upgrade give_up finish
  upgrade_found cmd d h =
      transition
        (Entity.start_upgrade (clock 1) (repo_chart cmd.chart_name cmd.repo_url cmd.version)
          cmd.values d)
        h
        (λ started. attempt (ports.save h started) (save started) return_error h (λ k.
          attempt_value (ports.upgrade k (upgrade_request cmd)) (upgrade (upgrade_request cmd))
            (give_up "helm upgrade" started) k (finish started)))

  -- `UpgradeChart`.
  unfoldable pub upgrade_chart : UpgradeChartCommand → List Call → Run ChartResult
  unfolding upgrade_found
  upgrade_chart cmd h =
      attempt_value (ports.find h cmd.release_name cmd.namespace)
        (find cmd.release_name cmd.namespace) (return_wrapped "finding deployment") h
        (upgrade_found cmd)

  -- What `RollbackChart` does once Helm has rolled back.
  unfoldable pub finish_rollback : (to_version : ℕ) → Deployment → List Call → Run Unit
  unfolding Entity.mark_rolled_back publish_events
  finish_rollback to_version d h =
      let done = Entity.mark_rolled_back (clock 2) to_version d in
      attempt (ports.save h done) (save done) return_error h (λ k. (publish_events done k, ok tt))

  -- What `RollbackChart` does with the aggregate that it finds.
  unfoldable pub rollback_found : RollbackChartCommand → Deployment → List Call → Run Unit
  unfolding Entity.start_rollback give_up finish_rollback
  rollback_found cmd d h = transition (Entity.start_rollback (clock 1) cmd.version d) h (λ started.
      attempt (ports.save h started) (save started) return_error h (λ k.
        attempt (ports.rollback k (rollback_request cmd)) (rollback (rollback_request cmd))
          (give_up "helm rollback" started) k (finish_rollback cmd.version started)))

  -- `RollbackChart`.
  unfoldable pub rollback_chart : RollbackChartCommand → List Call → Run Unit
  unfolding rollback_found
  rollback_chart cmd h =
      attempt_value (ports.find h cmd.release_name cmd.namespace)
        (find cmd.release_name cmd.namespace) (return_wrapped "finding deployment") h
        (rollback_found cmd)

  -- What `UninstallChart` does once Helm has uninstalled; the errors of the store are dropped.
  unfoldable pub forget : (release_name namespace : String) → List Call → Run Unit
  forget release_name namespace h =
      attempt_value (ports.find h release_name namespace) (find release_name namespace)
        (λ e k. (k, ok tt)) h (λ d k. (dropped (ports.delete k d.id) (delete d.id) k, ok tt))

  -- `UninstallChart`.
  unfoldable pub uninstall_chart : UninstallChartCommand → List Call → Run Unit
  unfolding forget
  uninstall_chart cmd h =
      attempt (ports.uninstall h (uninstall_request cmd)) (uninstall (uninstall_request cmd))
        (return_wrapped "helm uninstall") h (forget cmd.release_name cmd.namespace)
