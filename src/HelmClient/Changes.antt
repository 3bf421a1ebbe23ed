-- ===== src/HelmClient/Changes.antt =====
-- The methods of internal/adapters/helm/client.go that change releases, and their dry runs.
use sh_mcp_go.Prelude.{
  String, Bool, true, not, ◌&&◌, Option, none, some, ◌∷◌, [], Result, ok, err, if◌then◌else◌, ◌==◌,
  concat,
}
use sh_mcp_go.Retry.{retry_do, default_helm_policy}
use sh_mcp_go.HelmClient.Errors.{Error, during, about}
use sh_mcp_go.HelmClient.Releases.{Release, RawRelease, release, other_release}
use sh_mcp_go.HelmClient.Requests.{
  HelmInstallRequest, HelmUpgradeRequest, HelmRollbackRequest, HelmUninstallRequest,
}
use sh_mcp_go.HelmClient.Queries.{TemplateRequest}
use sh_mcp_go.HelmClient.Answers.{HelmDiffResult}
use sh_mcp_go.HelmClient.Sdk.{Sdk, World, Settings}
use sh_mcp_go.HelmClient.Calls.{then_do, unless, unwrapped}
use sh_mcp_go.HelmClient.Charts.{load_chart}
use sh_mcp_go.HelmClient.Parameters.{
  install_action, upgrade_action, rollback_action, uninstall_action, template_action,
}

module _ (sdk : Sdk) (settings : Settings) where
  -- The state of the closure that is tried again: the cluster, and `rawRel`.
  abbrev pub Captured : Type 0
  Captured = sdk.Cluster × Option RawRelease

  -- `rawRel, runErr = …; return runErr`.
  unfoldable pub capture : sdk.Cluster × Result Error RawRelease → Captured × Option Error
  capture (c, ok raw) = ((c, some raw), none)
  capture (c, err e) = ((c, none), some e)

  -- `retry.Do` around a run, and what follows it: the release, by its type assertion.
  abbrev pub asserted :
      (what name : String) → World sdk → Option RawRelease → World sdk × Result Error Release
  asserted what name w (some (release rel)) = (w, ok rel)
  asserted what name w _ = (w, err (about what name "unexpected release type"))

  abbrev pub after_run :
      (what name : String) → World sdk → Captured × Option Error → World sdk × Result Error Release
  after_run what name w ((c, raw), some e) = (record w { cluster = c }, err (during what name e))
  after_run what name w ((c, raw), none) = asserted what name (record w { cluster = c }) raw

  unfoldable pub run_retried :
      (what name : String)
      → (sdk.Cluster → sdk.Cluster × Result Error RawRelease)
      → World sdk
      → World sdk × Result Error Release
  unfolding retry_do default_helm_policy capture
  run_retried what name run w = after_run what name w (
      retry_do (sdk.retry_go) (default_helm_policy (sdk.retry_go)) (λ s. capture (run (s.0)))
        (w.cluster, none))

  -- `Install`.
  unfoldable pub install : HelmInstallRequest → World sdk → World sdk × Result Error Release
  unfolding then_do unless load_chart run_retried install_action
  install req w = unless (sdk.init (req.namespace)) w (λ w1.
      then_do (load_chart sdk settings (req.chart_name) (req.repo_url) (req.version) w1)
        (during "loading chart" (req.chart_name))
        (λ chart w2.
          run_retried "helm install" (req.release_name)
            (sdk.run_install (install_action (settings.default_timeout) req) chart (req.values))
            w2))

  -- `Upgrade`.
  unfoldable pub upgrade : HelmUpgradeRequest → World sdk → World sdk × Result Error Release
  unfolding then_do unless load_chart run_retried upgrade_action
  upgrade req w = unless (sdk.init (req.namespace)) w (λ w1.
      then_do (load_chart sdk settings (req.chart_name) (req.repo_url) (req.version) w1)
        (during "loading chart" (req.chart_name))
        (λ chart w2.
          run_retried "helm upgrade" (req.release_name)
            (sdk.run_upgrade (upgrade_action (settings.default_timeout) req) (req.release_name)
              chart (req.values))
            w2))

  abbrev pub after_change : sdk.Cluster × Option Error → World sdk → World sdk × Option Error
  after_change (c, e) w = (record w { cluster = c }, e)

  -- `Rollback`.
  unfoldable pub rollback : HelmRollbackRequest → World sdk → World sdk × Option Error
  unfolding rollback_action
  rollback req w = elim (sdk.init (req.namespace)) [
    | some e ↦ (w, some e)
    | none ↦
        after_change
          (sdk.run_rollback (rollback_action (settings.default_timeout) req) (req.release_name)
            (w.cluster))
          w
  ]

  -- `Uninstall`.
  unfoldable pub uninstall : HelmUninstallRequest → World sdk → World sdk × Option Error
  unfolding uninstall_action
  uninstall req w = elim (sdk.init (req.namespace)) [
    | some e ↦ (w, some e)
    | none ↦
        after_change (sdk.run_uninstall (uninstall_action req) (req.release_name) (w.cluster)) w
  ]

  abbrev pub manifest_of : Release → World sdk → World sdk × Result Error String
  manifest_of rel w = (w, ok (rel.manifest))

  -- `DryRunInstall`.
  unfoldable pub dry_run_install : HelmInstallRequest → World sdk → World sdk × Result Error String
  unfolding then_do install
  dry_run_install req w = then_do (install (record req { dry_run = true }) w) unwrapped manifest_of

  -- `DryRunUpgrade`.
  unfoldable pub dry_run_upgrade : HelmUpgradeRequest → World sdk → World sdk × Result Error String
  unfolding then_do upgrade
  dry_run_upgrade req w = then_do (upgrade (record req { dry_run = true }) w) unwrapped manifest_of

  abbrev pub diff_result : (manifest : String) → World sdk → World sdk × Result Error HelmDiffResult
  diff_result manifest w = (w, ok (record { has_changes = not (manifest == ""); diff = manifest }))

  -- `Diff`.
  unfoldable pub diff : HelmUpgradeRequest → World sdk → World sdk × Result Error HelmDiffResult
  unfolding then_do dry_run_upgrade
  diff req w = then_do (dry_run_upgrade req w) unwrapped diff_result

  -- The manifest, with the notes where they are asked for and there.
  abbrev pub rendered : (show_notes : Bool) → Release → String
  rendered show_notes rel = elim (rel.info) [
    | none ↦ rel.manifest
    | some info ↦
        if show_notes && not (info.notes == "")
        then concat (rel.manifest ∷ "\n---\n# Source: NOTES.txt\n" ∷ info.notes ∷ [])
        else rel.manifest
  ]

  abbrev pub templated :
      TemplateRequest
      → World sdk
      → sdk.Cluster × Result Error RawRelease
      → World sdk × Result Error String
  templated req w (c, err e) =
      (record w { cluster = c }, err (during "template chart" (req.chart_name) e))
  templated req w (c, ok (release rel)) =
      (record w { cluster = c }, ok (rendered (req.show_notes) rel))
  templated req w (c, ok other_release) = (
    record w { cluster = c },
    err (about "template chart" (req.chart_name) "unexpected release type"),
  )

  -- `TemplateChart`.
  unfoldable pub template_chart : TemplateRequest → World sdk → World sdk × Result Error String
  unfolding then_do load_chart template_action
  template_chart req w =
      then_do (load_chart sdk settings (req.chart_name) (req.repo_url) (req.version) w)
        (during "loading chart" (req.chart_name))
        (λ chart w1.
          templated req w1 (
            sdk.run_install (template_action (sdk.new_install) req) chart (req.values)
              (w1.cluster)))
