-- ===== src/HelmClient/Answers.antt =====
-- What the methods of internal/ports/outbound/helm.go return.
use sh_mcp_go.Prelude.{ℕ, String, Bool, List, Any}

pub record HelmDiffResult : Type 0 where
  pub has_changes : Bool
  pub diff : String

pub record RepoSearchResult : Type 0 where
  pub name : String
  pub chart_version : String
  pub app_version : String
  pub description : String
  pub repo_url : String

pub record ChartDetails : Type 0 where
  pub metadata : List (String × Any)
  pub default_values : List (String × Any)
  pub readme : String

pub record LintMessage : Type 0 where
  pub severity : String
  pub path : String
  pub message : String

pub record LintResult : Type 0 where
  pub total_charts : ℕ
  pub messages : List LintMessage
  pub errors : List String

pub record TestResult : Type 0 where
  pub release_name : String
  pub namespace : String
  pub status : String
  pub passed : ℕ
  pub failed : ℕ
  pub messages : List String

pub record ReleaseMetadata : Type 0 where
  pub name : String
  pub chart : String
  pub version : String
  pub app_version : String
  pub annotations : List (String × String)
  pub labels : List (String × String)
  pub dependencies : List String
  pub namespace : String
  pub revision : ℕ
  pub status : String
  pub deployed_at : String
  pub apply_method : String

pub record ReleaseStatusDetails : Type 0 where
  pub release_name : String
  pub namespace : String
  pub revision : ℕ
  pub status : String
  pub notes : String
  pub deployed_at : String
  pub resources : List (String × Any)

pub record HookInfo : Type 0 where
  pub name : String
  pub kind : String
  pub path : String
  pub events : List String
  pub status : String
  pub weight : ℕ

pub record DependencyEntry : Type 0 where
  pub name : String
  pub version : String
  pub repository : String
  pub condition : String
  pub tags : List String
  pub alias : String
