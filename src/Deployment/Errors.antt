-- ===== src/Deployment/Errors.antt =====
-- The error values of internal/domain/deployment (errors.go and the `Validate` methods), and those
-- that the application services build from them.
use sh_mcp_go.Prelude.{String}
use sh_mcp_go.Deployment.Status.{Status}

pub data Error : Type 0 where
  -- `ErrInvalidTransition`
  invalid_transition : (from to : Status) → Error
  empty_release_name empty_namespace empty_chart_name empty_repo_url : Error
  invalid_release_name invalid_namespace : String → Error
  -- `chart version %q is not a valid semver: %w`
  invalid_version : String → Error
  -- A value from outside the repository's code, by its text.
  external : String → Error
  -- `fmt.Errorf("<what>: %w", err)`
  wrapped : (what : String) → Error → Error
