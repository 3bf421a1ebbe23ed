-- ===== src/Handlers/Untouched.antt =====
-- Which tools of internal/adapters/mcp/handler.go leave the cluster as it is.
use sh_mcp_go.Prelude.{
  String, ◌≡◌, refl, true, false, some, List, [], ◌∷◌, arith, inl, inr, Result-cases,
}
use sh_mcp_go.Retry.{RetryLaws}
use sh_mcp_go.HelmClient.Errors.{Error}
use sh_mcp_go.HelmClient.Releases.{Release, Entry}
use sh_mcp_go.HelmClient.Sdk.{Sdk, SdkLaws, World, Settings}
use sh_mcp_go.HelmClient.Repositories.{
  to_entry, add_repo, remove_repo, update_repos, update_repo, update_named,
}
use sh_mcp_go.HelmClient.DryRuns.{
  register-cluster, dry_install-IsUntouched, dry_upgrade-IsUntouched, dry_runs-cluster,
}
use sh_mcp_go.Handlers.Arguments.{Arguments, Parser}
use sh_mcp_go.Handlers.Answers.{ToolResult}
use sh_mcp_go.Handlers.Requests.{install_request, upgrade_request, template_request, repo_entry}
use sh_mcp_go.Handlers.Helm.{helm_install_tool, helm_upgrade_tool, template_chart_tool}
use sh_mcp_go.Handlers.Repositories.{
  repo_add_tool, repo_remove_tool, repo_update_tool, repo_update_single_tool,
}

module _ (sdk : Sdk) (settings : Settings) where
  remove_repo-cluster :
      (name : String) (w : World sdk) → (remove_repo sdk settings name w).0.cluster ≡ w.cluster
  unfolding remove_repo
  remove_repo-cluster name w = ground arith

  update_repos-cluster : (w : World sdk) → (update_repos sdk settings w).0.cluster ≡ w.cluster
  unfolding update_repos
  update_repos-cluster w = ground arith

  update_named-cluster :
      (name : String) (entries : List Entry) (w : World sdk)
      → (update_named sdk settings name entries w).0.cluster ≡ w.cluster
  unfolding update_named
  update_named-cluster name [] w = refl
  update_named-cluster name (entry ∷ entries) w =
      let later = update_named-cluster name entries w in ground (arith, later)

  update_repo-cluster :
      (name : String) (w : World sdk) → (update_repo sdk settings name w).0.cluster ≡ w.cluster
  unfolding update_repo
  update_repo-cluster name w = elim (Result-cases (w.repositories)) [
    | inl (f, e) ↦ let kept = update_named-cluster name f w in ground (arith, e, kept)
    | inr (x, e) ↦ ground (arith, e)
  ]

  module _ (parser : Parser) (error_text : Error → String) (quote : String → String) where
    -- Where retrying only calls the function it gets, and the SDK's dry runs on the client's side change
    -- nothing in the cluster, the tools template_chart, repo_add, repo_remove, repo_update and
    -- repo_update_single leave the cluster as it is, whatever the arguments.
    pub local_tools-cluster :
        SdkLaws sdk
        → RetryLaws (sdk.retry_go)
        → (args : Arguments) (w : World sdk)
        → ((template_chart_tool sdk settings parser error_text args w).0.cluster ≡ w.cluster)
          × ((repo_add_tool parser error_text quote sdk settings args w).0.cluster ≡ w.cluster)
          × ((repo_remove_tool parser error_text quote sdk settings args w).0.cluster ≡ w.cluster)
          × ((repo_update_tool parser error_text quote sdk settings w).0.cluster ≡ w.cluster)
          × ((repo_update_single_tool parser error_text quote sdk settings args w).0.cluster
              ≡ w.cluster)
    unfolding template_chart_tool repo_add_tool repo_remove_tool repo_update_tool
        repo_update_single_tool add_repo
    local_tools-cluster laws retry args w =
        let (_, _, _, rendered) =
          dry_runs-cluster sdk settings laws retry (install_request parser args)
            (upgrade_request parser args) (template_request parser args) w in
        (
          rendered,
          register-cluster sdk settings (some (settings.repository_cache))
              (to_entry (repo_entry parser args)) w,
          remove_repo-cluster (parser.parse_string args "name" "") w,
          update_repos-cluster w,
          update_repo-cluster (parser.parse_string args "name" "") w,
        )

    -- Where a dry run of the SDK on the client's side changes nothing in the cluster, and retrying only
    -- calls the function it gets, a call of helm_install or of helm_upgrade whose argument dry_run is
    -- true leaves the cluster as it is.
    pub dry_tools-cluster :
        SdkLaws sdk
        → RetryLaws (sdk.retry_go)
        → (show : Release → ToolResult) (args : Arguments) (w : World sdk)
        → parser.parse_boolean args "dry_run" false ≡ true
        → ((helm_install_tool sdk settings parser error_text show args w).0.cluster ≡ w.cluster)
          × ((helm_upgrade_tool sdk settings parser error_text show args w).0.cluster ≡ w.cluster)
    unfolding helm_install_tool helm_upgrade_tool install_request upgrade_request
    dry_tools-cluster laws retry show args w dry =
        let installed =
          dry_install-IsUntouched sdk settings laws retry (install_request parser args) w dry in
        let upgraded =
          dry_upgrade-IsUntouched sdk settings laws retry (upgrade_request parser args) w dry in
        (installed.untouched, upgraded.untouched)
