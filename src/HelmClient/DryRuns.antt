-- ===== src/HelmClient/DryRuns.antt =====
-- What the dry runs of internal/adapters/helm/client.go do to the cluster.
use sh_mcp_go.Prelude.{ℕ, String, ◌≡◌, refl, ◌∙◌, true, Option, none, some, Result, ok, err, arith}
use sh_mcp_go.Retry.{RetryLaws, options, default_helm_policy}
use sh_mcp_go.HelmClient.Errors.{Error}
use sh_mcp_go.HelmClient.Releases.{RawRelease, release, other_release, RawChart, Entry}
use sh_mcp_go.HelmClient.Requests.{HelmInstallRequest, HelmUpgradeRequest}
use sh_mcp_go.HelmClient.Queries.{TemplateRequest}
use sh_mcp_go.HelmClient.Actions.{dry_run_client, InstallAction}
use sh_mcp_go.HelmClient.Sdk.{Sdk, SdkLaws, World, Settings}
use sh_mcp_go.HelmClient.Calls.{then_do, IsUntouched, then_do-IsUntouched, unless-IsUntouched}
use sh_mcp_go.HelmClient.Repositories.{register, ensure_repo}
use sh_mcp_go.HelmClient.Charts.{load_chart}
use sh_mcp_go.HelmClient.Parameters.{install_action, upgrade_action, template_action}
use sh_mcp_go.HelmClient.Changes.{
  capture, run_retried, install, upgrade, dry_run_install, dry_run_upgrade, diff, template_chart,
  Captured, after_run, templated,
}

strategy-install :
    (n : ℕ) (req : HelmInstallRequest)
    → req.dry_run ≡ true
    → (install_action n req).dry_run_strategy ≡ dry_run_client
unfolding install_action
strategy-install n req dry = rw dry

strategy-upgrade :
    (n : ℕ) (req : HelmUpgradeRequest)
    → req.dry_run ≡ true
    → (upgrade_action n req).dry_run_strategy ≡ dry_run_client
unfolding upgrade_action
strategy-upgrade n req dry = rw dry

strategy-template :
    (fresh : InstallAction) (req : TemplateRequest)
    → (template_action fresh req).dry_run_strategy ≡ dry_run_client
unfolding template_action
strategy-template fresh req = refl

module _ (sdk : Sdk) (settings : Settings) where
  pub register-cluster :
      (cache_path : Option String) (entry : Entry) (w : World sdk)
      → (register sdk settings cache_path entry w).0.cluster ≡ w.cluster
  unfolding register
  register-cluster cache_path entry w = ground arith

  pub ensure_repo-cluster :
      (name url : String) (w : World sdk)
      → (ensure_repo sdk settings name url w).0.cluster ≡ w.cluster
  unfolding ensure_repo
  ensure_repo-cluster name url w = ground (arith, register-cluster none _ w)

  load_chart-IsUntouched :
      (name repo_url version : String) (w : World sdk)
      → IsUntouched (w.cluster) (load_chart sdk settings name repo_url version w)
  unfolding load_chart
  load_chart-IsUntouched name repo_url version w = record {
    untouched = ground (arith, ensure_repo-cluster name repo_url w);
  }

  capture-cluster : (r : sdk.Cluster × Result Error RawRelease) → (capture sdk settings r).0.0 ≡ r.0
  unfolding capture
  capture-cluster (c, ok raw) = refl
  capture-cluster (c, err e) = refl

  after_run-IsUntouched :
      (c : sdk.Cluster) (what name : String) (w : World sdk)
      (r : Captured sdk settings × Option Error)
      → r.0.0 ≡ c
      → IsUntouched c (after_run sdk settings what name w r)
  after_run-IsUntouched c what name w ((d, raw), some e) h = record { untouched = h }
  after_run-IsUntouched c what name w ((d, some (release rel)), none) h = record { untouched = h }
  after_run-IsUntouched c what name w ((d, some other_release), none) h = record { untouched = h }
  after_run-IsUntouched c what name w ((d, none), none) h = record { untouched = h }

  templated-IsUntouched :
      (c : sdk.Cluster) (req : TemplateRequest) (w : World sdk)
      (r : sdk.Cluster × Result Error RawRelease)
      → r.0 ≡ c
      → IsUntouched c (templated sdk settings req w r)
  templated-IsUntouched c req w (d, err e) h = record { untouched = h }
  templated-IsUntouched c req w (d, ok (release rel)) h = record { untouched = h }
  templated-IsUntouched c req w (d, ok other_release) h = record { untouched = h }

  module _ (laws : SdkLaws sdk) (retry : RetryLaws (sdk.retry_go)) where
    run_retried-IsUntouched :
        (c : sdk.Cluster) (what name : String)
        (run : sdk.Cluster → sdk.Cluster × Result Error RawRelease) (w : World sdk)
        → w.cluster ≡ c
        → ((d : sdk.Cluster) → (run d).0 ≡ d)
        → IsUntouched c (run_retried sdk settings what name run w)
    unfolding run_retried
    run_retried-IsUntouched c what name run w same h = after_run-IsUntouched c what name w _ (
        retry.only_calls (λ s. s.0 ≡ c)
          (options (sdk.retry_go) (default_helm_policy (sdk.retry_go)))
          (λ s. capture sdk settings (run (s.0))) (w.cluster, none)
          (λ s e. capture-cluster (run (s.0)) ∙ (h (s.0) ∙ e)) same)

    loaded-IsUntouched :
        {B : Type 0} (name repo_url version : String) (w v : World sdk) (failed : Error → Error)
        (next : RawChart → World sdk → World sdk × Result Error B)
        → v.cluster ≡ w.cluster
        → ((chart : RawChart) (u : World sdk)
            → u.cluster ≡ w.cluster
            → IsUntouched (w.cluster) (next chart u))
        → IsUntouched
            (w.cluster)
            (then_do (load_chart sdk settings name repo_url version v) failed next)
    loaded-IsUntouched name repo_url version w v failed next same h =
        then_do-IsUntouched (w.cluster) (load_chart sdk settings name repo_url version v) failed
          next
          (record { untouched = (load_chart-IsUntouched name repo_url version v).untouched ∙ same })
          h

    pub dry_install-IsUntouched :
        (req : HelmInstallRequest) (w : World sdk)
        → req.dry_run ≡ true
        → IsUntouched (w.cluster) (install sdk settings req w)
    unfolding install
    dry_install-IsUntouched req w dry =
        unless-IsUntouched (w.cluster) (sdk.init (req.namespace)) w _ refl (
          loaded-IsUntouched _ _ _ w w _ _ refl (λ chart v same.
            run_retried-IsUntouched (w.cluster) _ _ _ v same (λ d.
              laws.dry_install _ chart (req.values) d
                (strategy-install (settings.default_timeout) req dry))))

    pub dry_upgrade-IsUntouched :
        (req : HelmUpgradeRequest) (w : World sdk)
        → req.dry_run ≡ true
        → IsUntouched (w.cluster) (upgrade sdk settings req w)
    unfolding upgrade
    dry_upgrade-IsUntouched req w dry =
        unless-IsUntouched (w.cluster) (sdk.init (req.namespace)) w _ refl (
          loaded-IsUntouched _ _ _ w w _ _ refl (λ chart v same.
            run_retried-IsUntouched (w.cluster) _ _ _ v same (λ d.
              laws.dry_upgrade _ _ chart (req.values) d
                (strategy-upgrade (settings.default_timeout) req dry))))

    dry_run_upgrade-IsUntouched :
        (req : HelmUpgradeRequest) (w : World sdk)
        → IsUntouched (w.cluster) (dry_run_upgrade sdk settings req w)
    unfolding dry_run_upgrade
    dry_run_upgrade-IsUntouched req w =
        then_do-IsUntouched (w.cluster) _ _ _
          (dry_upgrade-IsUntouched (record req { dry_run = true }) w refl)
          (λ rel v same. record { untouched = same })

    -- Where a dry run of the SDK on the client's side changes nothing in the cluster, and retrying only
    -- calls the function it gets, `DryRunInstall`, `DryRunUpgrade`, `Diff` and `TemplateChart` leave the
    -- cluster as it is: for every request, also one that does not ask for a dry run, and whatever
    -- fails.
    pub dry_runs-cluster :
        (install_req : HelmInstallRequest) (upgrade_req : HelmUpgradeRequest)
        (template_req : TemplateRequest) (w : World sdk)
        → ((dry_run_install sdk settings install_req w).0.cluster ≡ w.cluster)
          × ((dry_run_upgrade sdk settings upgrade_req w).0.cluster ≡ w.cluster)
          × ((diff sdk settings upgrade_req w).0.cluster ≡ w.cluster)
          × ((template_chart sdk settings template_req w).0.cluster ≡ w.cluster)
    unfolding dry_run_install diff template_chart
    dry_runs-cluster install_req upgrade_req template_req w = (
      (then_do-IsUntouched (w.cluster) _ _ _
          (dry_install-IsUntouched (record install_req { dry_run = true }) w refl)
          (λ rel v same. record { untouched = same })).untouched,
      (dry_run_upgrade-IsUntouched upgrade_req w).untouched,
      (then_do-IsUntouched (w.cluster) _ _ _ (dry_run_upgrade-IsUntouched upgrade_req w)
          (λ rel v same. record { untouched = same })).untouched,
      (loaded-IsUntouched _ _ _ w w _ _ refl (λ chart v same.
          templated-IsUntouched (w.cluster) template_req v _ (
            laws.dry_install _ chart (template_req.values) (v.cluster)
              (strategy-template (sdk.new_install) template_req)
            ∙ same))).untouched,
    )
