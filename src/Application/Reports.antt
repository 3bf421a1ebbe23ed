-- ===== src/Application/Reports.antt =====
-- `InstallChart` and `UpgradeChart` of internal/application/deployment/service.go from beginning to end.
use sh_mcp_go.Prelude.{
  ℕ, String, ◌≡◌, inl, inr, refl, Bool, not, ◌||◌, List, ◌∷◌, Bool-cases, Result-cases,
}
use sh_mcp_go.Deployment.Errors.{wrapped}
use sh_mcp_go.Deployment.Events.{Moment}
use sh_mcp_go.Deployment.Entity
use sh_mcp_go.Deployment.Entity.{Deployment, new}
use sh_mcp_go.Application.Commands.{InstallChartCommand, UpgradeChartCommand, ChartResult}
use sh_mcp_go.Application.Ports.{Call, save, install, upgrade, Ports, Run, return_error}
use sh_mcp_go.Application.Service.{
  repo_chart, install_request, upgrade_request, deploy, save_new, install_chart, upgrade_found,
  upgrade_chart,
}
use sh_mcp_go.Application.Rules.{attempt_rule, attempt_value_rule, transition_rule}
use sh_mcp_go.Application.Outcomes.{
  helm_calls, start_deployment-IsUnderWay, start_upgrade-IsUnderWay, Reported, untried,
  finish-Reported, give_up-Reported,
}

module _ (ports : Ports) (clock : ℕ → Moment) where
  module _ (cmd : InstallChartCommand) (h : List Call) where
    abbrev Installs : Run ChartResult → Type 0
    Installs =
        Reported ports clock "helm install" (λ k. ports.install k (install_request cmd))
          (install (install_request cmd)) h

    deploy-Reported :
        (d : Deployment) (k : List Call)
        → helm_calls k ≡ helm_calls h
        → Installs (deploy ports clock cmd d k)
    unfolding deploy
    deploy-Reported d k same =
        let started = (Entity.start_deployment (clock 1) d).0 in
        let req = install_request cmd in
        transition_rule Installs _ k _
          (λ accepted.
            attempt_rule Installs _ _ return_error k _
              (λ _.
                attempt_value_rule Installs _ _ _ _ _
                  (λ rel answer.
                    finish-Reported ports clock "helm install" (λ l. ports.install l req)
                      (install req) h started rel (save started ∷ k)
                      (start_deployment-IsUnderWay (clock 1) d accepted) same answer)
                  (λ e answer.
                    give_up-Reported ports clock "helm install" (λ l. ports.install l req)
                      (install req) h started e (save started ∷ k) same answer))
              (λ e _. untried (save started ∷ k) e same))
          (λ e _. untried k e same)

    save_new-Reported :
        (d : Deployment) (k : List Call)
        → helm_calls k ≡ helm_calls h
        → Installs (save_new ports clock cmd d k)
    unfolding save_new
    save_new-Reported d k same =
        attempt_rule Installs _ _ _ k _ (λ _. deploy-Reported d (save d ∷ k) same)
          (λ e _. untried _ _ same)

    -- `InstallChart` calls Helm once or not at all. Where it returns a result, Helm has installed
    -- the release, the aggregate was then saved as SUCCEEDED with the release's revision last in its
    -- history, and the result has the aggregate's id and status and the release's name, namespace,
    -- revision and notes. Where it returns an error, Helm was not called, or Helm failed and then a
    -- save of the aggregate as FAILED was tried, whose own error is dropped, or only the last save
    -- failed. After the save as SUCCEEDED, and after the one as FAILED also where that save fails, a
    -- publisher that is there gets all events of the aggregate in one call, where it has any; the
    -- publisher's answer does not matter.
    pub install_chart-Reported :
        (is_semver : String → Bool) (id : String)
        → Reported ports clock "helm install"
            (λ k. ports.install k (install_request cmd))
            (install (install_request cmd))
            h
            (install_chart ports clock is_semver id cmd h)
    unfolding install_chart
    install_chart-Reported is_semver id =
        elim (Result-cases (
          new is_semver (clock 0) id cmd.release_name cmd.namespace
            (repo_chart cmd.chart_name cmd.repo_url cmd.version) cmd.values)) [
              | inr (e, refused) ↦
                  rw (refused, install_chart)
                    (untried h (wrapped "creating deployment aggregate" e) refl)
              | inl (d, made) ↦ elim (Bool-cases (cmd.create_ns || not cmd.dry_run)) [
                | inl b ↦
                    rw (made, install_chart, b)
                      (attempt_rule Installs _ _ _ h _ (λ _. save_new-Reported d _ refl)
                        (λ e _. untried _ _ refl))
                | inr b ↦ rw (made, install_chart, b) (save_new-Reported d h refl)
              ]
            ]

  module _ (cmd : UpgradeChartCommand) (h : List Call) where
    abbrev Upgrades : Run ChartResult → Type 0
    Upgrades =
        Reported ports clock "helm upgrade" (λ k. ports.upgrade k (upgrade_request cmd))
          (upgrade (upgrade_request cmd)) h

    upgrade_found-Reported :
        (d : Deployment) (k : List Call)
        → helm_calls k ≡ helm_calls h
        → Upgrades (upgrade_found ports clock cmd d k)
    unfolding upgrade_found
    upgrade_found-Reported d k same =
        let chart = repo_chart cmd.chart_name cmd.repo_url cmd.version in
        let started = (Entity.start_upgrade (clock 1) chart cmd.values d).0 in
        let req = upgrade_request cmd in
        transition_rule Upgrades _ k _
          (λ accepted.
            attempt_rule Upgrades _ _ return_error k _
              (λ _.
                attempt_value_rule Upgrades _ _ _ _ _
                  (λ rel answer.
                    finish-Reported ports clock "helm upgrade" (λ l. ports.upgrade l req)
                      (upgrade req) h started rel (save started ∷ k)
                      (start_upgrade-IsUnderWay (clock 1) chart cmd.values d accepted) same answer)
                  (λ e answer.
                    give_up-Reported ports clock "helm upgrade" (λ l. ports.upgrade l req)
                      (upgrade req) h started e (save started ∷ k) same answer))
              (λ e _. untried (save started ∷ k) e same))
          (λ e _. untried k e same)

    -- `UpgradeChart` calls Helm once or not at all, and its results, its errors and what it
    -- publishes tell the same as those of `InstallChart`, of Helm's upgrade.
    pub upgrade_chart-Reported :
        Reported ports clock "helm upgrade"
          (λ k. ports.upgrade k (upgrade_request cmd))
          (upgrade (upgrade_request cmd))
          h
          (upgrade_chart ports clock cmd h)
    unfolding upgrade_chart
    upgrade_chart-Reported =
        attempt_value_rule Upgrades _ _ _ h _ (λ d _. upgrade_found-Reported d _ refl)
          (λ e _. untried _ _ refl)
