-- ===== src/HelmClient/Sdk.antt =====
-- The Helm SDK and the file system as internal/adapters/helm/client.go uses them.
use sh_mcp_go.Prelude.{
  ℕ, String, ◌≡◌, Bool, true, false, Option, none, List, Result, ok, Any, if◌then◌else◌, ◌==◌,
}
use mathlib.Core.List.{Memᴰ}
use sh_mcp_go.HelmClient.Errors.{Error}
use sh_mcp_go.HelmClient.Releases.{RawRelease, RawChart, IndexFile, Entry}
use sh_mcp_go.HelmClient.Actions.{
  dry_run_client, InstallAction, UpgradeAction, RollbackAction, UninstallAction, ListAction,
  TestingAction, ChartPathOptions,
}
use sh_mcp_go.Retry.{RetryGo}

-- `Cluster` is the state of the cluster, where Helm keeps its releases; `Cache` is the cache of
-- repositories, and `repov1.File` is its list of repositories. Where a call has a state as its
-- last argument, it answers with the state after it.
pub record Sdk : Type 1 where
  pub Cluster : Type 0
  pub Cache : Type 0
  pub Func : Type 0
  pub retry_go : RetryGo Func
  -- `Configuration.Init` for a namespace
  pub init : (namespace : String) → Option Error
  -- `NewInstall` without a connection
  pub new_install : InstallAction
  pub run_install :
      InstallAction
      → RawChart
      → (values : List (String × Any)) → Cluster
      → Cluster × Result Error RawRelease
  pub run_upgrade :
      UpgradeAction
      → (name : String) → RawChart
      → (values : List (String × Any)) → Cluster
      → Cluster × Result Error RawRelease
  pub run_rollback : RollbackAction → (name : String) → Cluster → Cluster × Option Error
  pub run_uninstall : UninstallAction → (name : String) → Cluster → Cluster × Option Error
  -- The version is `none` where it is not set.
  pub run_get :
      (config : String) → (version : Option ℕ) → (name : String) → Cluster → Result Error RawRelease
  pub run_list : ListAction → Cluster → Result Error (List RawRelease)
  pub run_history :
      (config : String) → (max : ℕ) → (name : String) → Cluster → Result Error (List RawRelease)
  pub run_testing : TestingAction → (name : String) → Cluster → Cluster × Result Error RawRelease
  pub hook_test : String
  pub hook_phase_succeeded : String
  pub hook_phase_failed : String
  -- `LocateChart` and `loader.Load`
  pub locate_chart :
      ChartPathOptions
      → (name : String) → Result Error (List Entry)
      → Cache
      → Cache × Result Error String
  pub load : (path : String) → Cache → Result Error RawChart
  -- `File.Has`, `File.Update`, `File.Remove` and `File.WriteFile`; the last answers with the file's
  -- new content.
  pub has : (name : String) → List Entry → Bool
  pub update : Entry → List Entry → List Entry
  pub remove : (name : String) → List Entry → List Entry
  pub write_file : List Entry → Result Error (List Entry) → Result Error (List Entry) × Option Error
  -- `NewChartRepository`, and `DownloadIndexFile` with the cache path, where it is set
  pub new_chart_repository : Entry → Option Error
  pub download_index_file : (cache_path : Option String) → Entry → Cache → Cache × Option Error
  -- The files `*.yaml` of a directory, and `LoadIndexFile`
  pub glob : (directory : String) → Cache → Result Error (List String)
  pub load_index_file : (path : String) → Cache → Result Error IndexFile

-- What the client counts on, by the SDK's documentation.
pub record SdkLaws (sdk : Sdk) : Type 1 where
  -- A dry run on the client's side changes nothing in the cluster.
  pub dry_install :
      (action : InstallAction) (chart : RawChart) (values : List (String × Any)) (c : sdk.Cluster)
      → action.dry_run_strategy ≡ dry_run_client
      → (sdk.run_install action chart values c).0 ≡ c
  pub dry_upgrade :
      (action : UpgradeAction) (name : String) (chart : RawChart) (values : List (String × Any))
      (c : sdk.Cluster)
      → action.dry_run_strategy ≡ dry_run_client
      → (sdk.run_upgrade action name chart values c).0 ≡ c
  -- `Update` replaces the entry of that name or adds it, `Remove` drops it, and `Has` looks for it.
  pub has-update :
      (name : String) (e : Entry) (f : List Entry)
      → sdk.has name (sdk.update e f) ≡ (if e.name == name then true else sdk.has name f)
  pub has-remove :
      (name gone : String) (f : List Entry)
      → sdk.has name (sdk.remove gone f) ≡ (if gone == name then false else sdk.has name f)
  pub has-mem : (e : Entry) (f : List Entry) → Memᴰ e f → sdk.has (e.name) f ≡ true
  pub mem-update : (e : Entry) (f : List Entry) → Memᴰ e (sdk.update e f)
  -- A file that is written without an error has the new content.
  pub written :
      (f : List Entry) (old : Result Error (List Entry))
      → (sdk.write_file f old).1 ≡ none
      → (sdk.write_file f old).0 ≡ ok f

-- What the client changes: the cluster, the cache, and what `LoadFile` answers for the file of
-- repositories.
pub record World (sdk : Sdk) : Type 0 where
  pub cluster : sdk.Cluster
  pub cache : sdk.Cache
  pub repositories : Result Error (List Entry)

-- Of `config.HelmConfig` and the settings, what the methods read.
pub record Settings : Type 0 where
  pub default_timeout : ℕ
  pub repository_cache : String
