-- ===== src/HelmClient/Actions.antt =====
-- The actions of the SDK, by the fields that internal/adapters/helm/client.go sets.
use sh_mcp_go.Prelude.{ℕ, String, Bool, Option, List}

pub data DryRunStrategy : Type 0 where
  dry_run_none dry_run_client : DryRunStrategy

pub data WaitStrategy : Type 0 where
  status_watcher hook_only : WaitStrategy

-- `config` is the namespace of the configuration, `none` for one without a connection.
pub record InstallAction : Type 0 where
  pub config : Option String
  pub release_name : String
  pub namespace : String
  pub version : String
  pub create_namespace : Bool
  pub wait_for_jobs : Bool
  pub rollback_on_failure : Bool
  pub labels : List (String × String)
  pub description : String
  pub generate_name : Bool
  pub name_template : String
  pub disable_hooks : Bool
  pub replace : Bool
  pub skip_crds : Bool
  pub sub_notes : Bool
  pub skip_schema_validation : Bool
  pub disable_open_api_validation : Bool
  pub server_side_apply : Bool
  pub force_conflicts : Bool
  pub take_ownership : Bool
  pub include_crds : Bool
  pub dry_run_strategy : DryRunStrategy
  pub wait_strategy : WaitStrategy
  pub timeout : ℕ

-- `server_side_apply` is `none` where the SDK's default stays.
pub record UpgradeAction : Type 0 where
  pub config : String
  pub namespace : String
  pub version : String
  pub reuse_values : Bool
  pub reset_values : Bool
  pub force_replace : Bool
  pub rollback_on_failure : Bool
  pub labels : List (String × String)
  pub description : String
  pub disable_hooks : Bool
  pub cleanup_on_fail : Bool
  pub max_history : ℕ
  pub reset_then_reuse_values : Bool
  pub skip_schema_validation : Bool
  pub disable_open_api_validation : Bool
  pub force_conflicts : Bool
  pub take_ownership : Bool
  pub server_side_apply : Option String
  pub dry_run_strategy : DryRunStrategy
  pub wait_strategy : WaitStrategy
  pub timeout : ℕ

pub record RollbackAction : Type 0 where
  pub config : String
  pub version : ℕ
  pub force_replace : Bool
  pub disable_hooks : Bool
  pub cleanup_on_fail : Bool
  pub max_history : ℕ
  pub force_conflicts : Bool
  pub server_side_apply : Option String
  pub dry_run_strategy : DryRunStrategy
  pub wait_strategy : WaitStrategy
  pub timeout : ℕ

-- `timeout` is `none` where it is not set.
pub record UninstallAction : Type 0 where
  pub config : String
  pub dry_run : Bool
  pub keep_history : Bool
  pub disable_hooks : Bool
  pub description : String
  pub timeout : Option ℕ
  pub wait_strategy : WaitStrategy

-- Which releases a list has, by their state.
pub data StateFlag : Type 0 where
  deployed failed uninstalled uninstalling pending superseded all : StateFlag

pub record ListAction : Type 0 where
  pub config : String
  pub all_namespaces : Bool
  pub state : StateFlag
  pub filter : String
  pub selector : String
  pub limit : ℕ
  pub offset : ℕ
  pub by_date : Bool
  pub sort_reverse : Bool

-- `filters` are those for the key `IncludeNameFilter`.
pub record TestingAction : Type 0 where
  pub config : String
  pub namespace : String
  pub timeout : ℕ
  pub filters : Option (List String)

pub record ChartPathOptions : Type 0 where
  pub repo_url : String
  pub version : String
