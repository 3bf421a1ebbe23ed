-- ===== src/HelmClient/Requests.antt =====
-- The requests of internal/ports/outbound/helm.go that change releases. An `int` is its bit pattern.
use sh_mcp_go.Prelude.{ℕ, String, Bool, List, Any}

pub record HelmInstallRequest : Type 0 where
  pub release_name : String
  pub namespace : String
  pub chart_name : String
  pub repo_url : String
  pub version : String
  pub values : List (String × Any)
  pub dry_run : Bool
  pub wait : Bool
  pub wait_for_jobs : Bool
  pub timeout : ℕ
  pub atomic : Bool
  pub create_ns : Bool
  pub labels : List (String × String)
  pub description : String
  pub generate_name : Bool
  pub name_template : String
  pub disable_hooks : Bool
  pub replace : Bool
  pub skip_crds : Bool
  pub sub_notes : Bool
  pub skip_schema_validation : Bool
  pub disable_open_api_validation : Bool
  pub server_side_apply : Bool
  pub force_conflicts : Bool
  pub take_ownership : Bool
  pub include_crds : Bool

pub record HelmUpgradeRequest : Type 0 where
  pub release_name : String
  pub namespace : String
  pub chart_name : String
  pub repo_url : String
  pub version : String
  pub values : List (String × Any)
  pub dry_run : Bool
  pub wait : Bool
  pub timeout : ℕ
  pub atomic : Bool
  pub reuse_values : Bool
  pub reset_values : Bool
  pub force : Bool
  pub labels : List (String × String)
  pub description : String
  pub disable_hooks : Bool
  pub cleanup_on_fail : Bool
  pub max_history : ℕ
  pub rollback_on_failure : Bool
  pub reset_then_reuse_values : Bool
  pub skip_schema_validation : Bool
  pub disable_open_api_validation : Bool
  pub server_side_apply : String
  pub force_conflicts : Bool
  pub take_ownership : Bool

pub record HelmRollbackRequest : Type 0 where
  pub release_name : String
  pub namespace : String
  pub version : ℕ
  pub dry_run : Bool
  pub wait : Bool
  pub timeout : ℕ
  pub force : Bool
  pub disable_hooks : Bool
  pub cleanup_on_fail : Bool
  pub max_history : ℕ
  pub server_side_apply : String
  pub force_conflicts : Bool

pub record HelmUninstallRequest : Type 0 where
  pub release_name : String
  pub namespace : String
  pub dry_run : Bool
  pub keep_history : Bool
  pub timeout : ℕ
  pub wait : Bool
  pub disable_hooks : Bool
  pub description : String
