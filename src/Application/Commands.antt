-- ===== src/Application/Commands.antt =====
-- internal/application/deployment/commands.go, and the requests of internal/ports/outbound/helm.go
-- that the service builds from the commands. Integers are the bit patterns of an `int`.
use sh_mcp_go.Prelude.{ℕ, String, Bool}
use sh_mcp_go.Deployment.Status.{Status}
use sh_mcp_go.Deployment.Values.{Values}

pub record InstallChartCommand : Type 0 where
  pub release_name : String
  pub namespace : String
  pub chart_name : String
  pub repo_url : String
  pub version : String
  pub values : Values
  pub dry_run : Bool
  pub wait : Bool
  pub atomic : Bool
  pub create_ns : Bool
  pub timeout_secs : ℕ

pub record UpgradeChartCommand : Type 0 where
  pub release_name : String
  pub namespace : String
  pub chart_name : String
  pub repo_url : String
  pub version : String
  pub values : Values
  pub dry_run : Bool
  pub wait : Bool
  pub atomic : Bool
  pub reuse_values : Bool
  pub reset_values : Bool
  pub force : Bool
  pub timeout_secs : ℕ

pub record RollbackChartCommand : Type 0 where
  pub release_name : String
  pub namespace : String
  pub version : ℕ
  pub dry_run : Bool
  pub wait : Bool
  pub timeout_secs : ℕ

pub record UninstallChartCommand : Type 0 where
  pub release_name : String
  pub namespace : String
  pub dry_run : Bool
  pub keep_history : Bool
  pub timeout_secs : ℕ

-- `InstallChartResult` and `UpgradeChartResult`, which have the same fields.
pub record ChartResult : Type 0 where
  pub deployment_id : String
  pub release_name : String
  pub namespace : String
  pub revision : ℕ
  pub status : Status
  pub notes : String

-- The Helm requests, with the fields that the service sets; the others have their zero values.
pub record HelmInstallRequest : Type 0 where
  pub release_name : String
  pub namespace : String
  pub chart_name : String
  pub repo_url : String
  pub version : String
  pub values : Values
  pub dry_run : Bool
  pub wait : Bool
  pub atomic : Bool
  pub create_ns : Bool
  pub timeout : ℕ

pub record HelmUpgradeRequest : Type 0 where
  pub release_name : String
  pub namespace : String
  pub chart_name : String
  pub repo_url : String
  pub version : String
  pub values : Values
  pub dry_run : Bool
  pub wait : Bool
  pub atomic : Bool
  pub reuse_values : Bool
  pub reset_values : Bool
  pub force : Bool
  pub timeout : ℕ

pub record HelmRollbackRequest : Type 0 where
  pub release_name : String
  pub namespace : String
  pub version : ℕ
  pub dry_run : Bool
  pub wait : Bool
  pub timeout : ℕ

pub record HelmUninstallRequest : Type 0 where
  pub release_name : String
  pub namespace : String
  pub dry_run : Bool
  pub keep_history : Bool
  pub timeout : ℕ
