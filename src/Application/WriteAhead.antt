-- ===== src/Application/WriteAhead.antt =====
-- What has always been done before internal/application/deployment/service.go changes the cluster.
use sh_mcp_go.Prelude.{
  ℕ, String, ◌≡◌, ◌⊎◌, inl, inr, refl, Bool, not, ◌&&◌, ◌||◌, none, List, [], ◌∷◌, Result, ok,
  Bool-cases, Result-cases, is_nil,
}
use sh_mcp_go.Deployment.Status.{failed}
use sh_mcp_go.Deployment.Errors.{Error}
use sh_mcp_go.Deployment.Chart.{ChartReference}
use sh_mcp_go.Deployment.Values.{Values}
use sh_mcp_go.Deployment.Events.{Moment}
use sh_mcp_go.Deployment.Entity
use sh_mcp_go.Deployment.Entity.{Deployment, initial, new}
use sh_mcp_go.Deployment.Creation.{new-ok_iff}
use sh_mcp_go.Application.Commands.{
  InstallChartCommand, UpgradeChartCommand, RollbackChartCommand, UninstallChartCommand,
}
use sh_mcp_go.Application.Ports.{
  Call, save, install, upgrade, rollback, Release, Ports, Run, return_error,
}
use sh_mcp_go.Application.Service.{
  repo_chart, install_request, upgrade_request, rollback_request, publish_events, give_up, finish,
  deploy, save_new, install_chart, upgrade_found, finish_rollback, rollback_found, forget,
  uninstall_chart,
}
use sh_mcp_go.Application.Requests.{Request, handle, serve}
use sh_mcp_go.Application.Rules.{
  attempt_rule, attempt_value_rule, transition_rule, IsOf, start_deployment-IsIn,
  start_upgrade-IsIn, start_rollback-IsIn, mark_failed-state,
}
use sh_mcp_go.Application.Guards.{FindsNamed, IsGuarded}

module _ (ports : Ports) where
  record Keeps {A : Type 0} (r : Run A) : Type 0 where
    guarded : IsGuarded ports r.0

  keeps :
      {A : Type 0} {h : List Call} {result : Result Error A} → IsGuarded ports h → Keeps (h, result)
  keeps g = record { guarded = g }

  module _ (clock : ℕ → Moment) where
    publish_events-IsGuarded :
        (d : Deployment) (h : List Call)
        → (ports.save h d ≡ none) ⊎ (d.status ≡ failed)
        → IsGuarded ports h
        → IsGuarded ports (publish_events ports clock d (save d ∷ h))
    unfolding publish_events
    publish_events-IsGuarded d h settled g =
        elim (Bool-cases (ports.has_publisher && not (is_nil d.events))) [
          | inl e ↦ rw e ((refl, settled), (tt, g))
          | inr e ↦ rw e (tt, g)
        ]

    give_up-IsGuarded :
        (A : Type 0) (what : String) (d : Deployment) (e : Error) (h : List Call)
        → IsGuarded ports h
        → Keeps (give_up ports clock {A = A} what d e h)
    unfolding give_up
    give_up-IsGuarded A what d e h g = keeps (
        publish_events-IsGuarded (Entity.mark_failed (clock 2) (ports.error_text e) d).0 h
          (inr (mark_failed-state (clock 2) (ports.error_text e) d)) g)

    finish-IsGuarded :
        (d : Deployment) (rel : Release) (h : List Call)
        → IsGuarded ports h
        → Keeps (finish ports clock d rel h)
    unfolding finish
    finish-IsGuarded d rel h g =
        transition_rule Keeps _ h _
          (λ _.
            attempt_rule Keeps _ _ return_error h _
              (λ saved. keeps (publish_events-IsGuarded _ h (inl saved) g)) (λ e _. keeps (tt, g)))
          (λ e _. keeps g)

    deploy-IsGuarded :
        (cmd : InstallChartCommand) (d : Deployment) (h : List Call)
        → IsOf cmd.release_name cmd.namespace d
        → IsGuarded ports h
        → Keeps (deploy ports clock cmd d h)
    unfolding deploy
    deploy-IsGuarded cmd d h o g =
        transition_rule Keeps _ h _
          (λ started.
            attempt_rule Keeps _ _ return_error h _
              (λ saved.
                let guarded : IsGuarded ports (
                    install (install_request cmd)
                    ∷ save (Entity.start_deployment (clock 1) d).0
                    ∷ h) =
                  ((start_deployment-IsIn (clock 1) _ _ d o started, saved), (tt, g)) in
                attempt_value_rule Keeps _ _ _ _ _
                  (λ rel _. finish-IsGuarded (Entity.start_deployment (clock 1) d).0 rel _ guarded)
                  (λ e _.
                    give_up-IsGuarded _ _ (Entity.start_deployment (clock 1) d).0 e _ guarded))
              (λ e _. keeps (tt, g)))
          (λ e _. keeps g)

    save_new-IsGuarded :
        (cmd : InstallChartCommand) (d : Deployment) (h : List Call)
        → IsOf cmd.release_name cmd.namespace d
        → IsGuarded ports h
        → Keeps (save_new ports clock cmd d h)
    unfolding save_new
    save_new-IsGuarded cmd d h o g =
        attempt_rule Keeps _ _ _ h _ (λ _. deploy-IsGuarded cmd d _ o (tt, g))
          (λ e _. keeps (tt, g))

    initial-IsOf :
        (m : Moment) (id name ns : String) (chart : ChartReference) (values : Values)
        → IsOf name ns (initial m id name ns chart values)
    unfolding initial
    initial-IsOf m id name ns chart values = record { named = refl; placed = refl }

    new-IsOf :
        (is_semver : String → Bool) (id name ns : String) (chart : ChartReference) (values : Values)
        (d : Deployment)
        → new is_semver (clock 0) id name ns chart values ≡ ok d
        → IsOf name ns d
    new-IsOf is_semver id name ns chart values d made =
        let e = ((new-ok_iff is_semver (clock 0) id name ns chart values d).0 made).0 in
        rw e (initial-IsOf (clock 0) id name ns chart values)

    install_chart-IsGuarded :
        (is_semver : String → Bool) (id : String) (cmd : InstallChartCommand) (h : List Call)
        → IsGuarded ports h
        → Keeps (install_chart ports clock is_semver id cmd h)
    unfolding install_chart
    install_chart-IsGuarded is_semver id cmd h g =
        elim (Result-cases (
          new is_semver (clock 0) id cmd.release_name cmd.namespace
            (repo_chart cmd.chart_name cmd.repo_url cmd.version) cmd.values)) [
              | inr (e, refused) ↦ rw (refused, install_chart) (keeps g)
              | inl (d, made) ↦
                  let o = new-IsOf is_semver id _ _ _ _ d made in
                  elim (Bool-cases (cmd.create_ns || not cmd.dry_run)) [
                    | inl b ↦
                        rw (made, install_chart, b)
                          (attempt_rule Keeps _ _ _ h _ (λ _. save_new-IsGuarded cmd d _ o (tt, g))
                            (λ e _. keeps (tt, g)))
                    | inr b ↦ rw (made, install_chart, b) (save_new-IsGuarded cmd d h o g)
                  ]
            ]

    upgrade_found-IsGuarded :
        (cmd : UpgradeChartCommand) (d : Deployment) (h : List Call)
        → IsOf cmd.release_name cmd.namespace d
        → IsGuarded ports h
        → Keeps (upgrade_found ports clock cmd d h)
    unfolding upgrade_found
    upgrade_found-IsGuarded cmd d h o g =
        transition_rule Keeps _ h _
          (λ started.
            attempt_rule Keeps _ _ return_error h _
              (λ saved.
                let chart = repo_chart cmd.chart_name cmd.repo_url cmd.version in
                let guarded : IsGuarded ports (
                    upgrade (upgrade_request cmd)
                    ∷ save (Entity.start_upgrade (clock 1) chart cmd.values d).0
                    ∷ h) =
                  ((start_upgrade-IsIn (clock 1) _ _ d _ cmd.values o started, saved), (tt, g)) in
                attempt_value_rule Keeps _ _ _ _ _
                  (λ rel _.
                    finish-IsGuarded
                      (Entity.start_upgrade (clock 1)
                        (repo_chart cmd.chart_name cmd.repo_url cmd.version) cmd.values d).0
                      rel _ guarded)
                  (λ e _.
                    give_up-IsGuarded _ _
                      (Entity.start_upgrade (clock 1)
                        (repo_chart cmd.chart_name cmd.repo_url cmd.version) cmd.values d).0
                      e _ guarded))
              (λ e _. keeps (tt, g)))
          (λ e _. keeps g)

    finish_rollback-IsGuarded :
        (to : ℕ) (d : Deployment) (h : List Call)
        → IsGuarded ports h
        → Keeps (finish_rollback ports clock to d h)
    unfolding finish_rollback
    finish_rollback-IsGuarded to d h g =
        attempt_rule Keeps _ _ return_error h _
          (λ saved. keeps (publish_events-IsGuarded _ h (inl saved) g)) (λ e _. keeps (tt, g))

    rollback_found-IsGuarded :
        (cmd : RollbackChartCommand) (d : Deployment) (h : List Call)
        → IsOf cmd.release_name cmd.namespace d
        → IsGuarded ports h
        → Keeps (rollback_found ports clock cmd d h)
    unfolding rollback_found
    rollback_found-IsGuarded cmd d h o g =
        transition_rule Keeps _ h _
          (λ started.
            attempt_rule Keeps _ _ return_error h _
              (λ saved.
                let guarded : IsGuarded ports (
                    rollback (rollback_request cmd)
                    ∷ save (Entity.start_rollback (clock 1) cmd.version d).0
                    ∷ h) =
                  ((start_rollback-IsIn (clock 1) _ _ d cmd.version o started, saved), (tt, g)) in
                attempt_rule Keeps _ _ _ _ _
                  (λ _.
                    finish_rollback-IsGuarded cmd.version
                      (Entity.start_rollback (clock 1) cmd.version d).0 _ guarded)
                  (λ e _.
                    give_up-IsGuarded _ _ (Entity.start_rollback (clock 1) cmd.version d).0 e _
                      guarded))
              (λ e _. keeps (tt, g)))
          (λ e _. keeps g)

    uninstall_chart-IsGuarded :
        (cmd : UninstallChartCommand) (h : List Call)
        → IsGuarded ports h
        → Keeps (uninstall_chart ports clock cmd h)
    unfolding uninstall_chart forget
    uninstall_chart-IsGuarded cmd h g =
        attempt_rule Keeps _ _ _ h _
          (λ done.
            attempt_value_rule Keeps _ _ _ _ _
              (λ d found. keeps ((done, refl, refl, d, found, refl), (tt, (tt, g))))
              (λ e _. keeps (tt, (tt, g))))
          (λ e _. keeps (tt, g))

    handle-IsGuarded :
        FindsNamed ports
        → (is_semver : String → Bool) (request : Request) (h : List Call) → IsGuarded ports h
        → IsGuarded ports (handle ports is_semver clock request h)
    unfolding handle
    handle-IsGuarded finds is_semver (Request.install id cmd) h g =
        (install_chart-IsGuarded is_semver id cmd h g).guarded
    handle-IsGuarded finds is_semver (Request.upgrade cmd) h g =
        (attempt_value_rule Keeps _ _ _ h _
          (λ d found. upgrade_found-IsGuarded cmd d _ (finds _ _ _ d found) (tt, g))
          (λ e _. keeps (tt, g))).guarded
    handle-IsGuarded finds is_semver (Request.rollback cmd) h g =
        (attempt_value_rule Keeps _ _ _ h _
          (λ d found. rollback_found-IsGuarded cmd d _ (finds _ _ _ d found) (tt, g))
          (λ e _. keeps (tt, g))).guarded
    handle-IsGuarded finds is_semver (Request.uninstall cmd) h g =
        (uninstall_chart-IsGuarded cmd h g).guarded

  -- Whatever the requests and the answers of the ports, where `FindByReleaseName` finds only records
  -- of the release that is asked for, and the calls from before keep to the rest of this: directly before each call of Helm's Install, Upgrade or Rollback, the service has
  -- saved the record of that release in DEPLOYING, UPGRADING or ROLLING_BACK, without an error; a
  -- record is deleted only after Helm has uninstalled its release; and events are published only after
  -- the save of the record that has them, which has succeeded unless the record is FAILED.
  pub serve-IsGuarded :
      FindsNamed ports
      → (is_semver : String → Bool) (requests : List ((ℕ → Moment) × Request)) (h : List Call)
      → IsGuarded ports h
      → IsGuarded ports (serve ports is_semver requests h)
  unfolding serve
  serve-IsGuarded finds is_semver [] h g = g
  serve-IsGuarded finds is_semver ((clock, request) ∷ requests) h g =
      serve-IsGuarded finds is_semver requests _
        (handle-IsGuarded clock finds is_semver request h g)
