-- ===== src/KubernetesClient/Api.antt =====
-- The answers of the Kubernetes API as internal/adapters/kubernetes/client.go reads them.
use sh_mcp_go.Prelude.{ℕ, String, Bool, Option, List}

-- An error of the API, by what the client asks of it.
pub data ApiError : Type 0 where
  already_exists not_found : ApiError
  other : (text : String) → ApiError

-- An error that the client returns.
pub data Error : Type 0 where
  -- As it came.
  api : ApiError → Error
  -- `fmt.Errorf("<what> %q: %w", subject, cause)`, or without the subject.
  during : (what subject : String) → (cause : ApiError) → Error
  failed : (what : String) → (cause : ApiError) → Error
  unsupported_kind : (kind : String) → Error
  rollout_timeout : (kind name : String) → (timeout_secs : ℕ) → Error
  cancelled : Error

-- A Deployment or a StatefulSet; `replicas` is `none` where `Spec.Replicas` is nil.
pub record Workload : Type 0 where
  pub name : String
  pub namespace : String
  pub ready_replicas : ℕ
  pub replicas : Option ℕ
  pub created : ℕ

pub record DaemonSet : Type 0 where
  pub number_ready : ℕ
  pub desired_number_scheduled : ℕ

pub record NodeCondition : Type 0 where
  pub is_ready_type : Bool
  pub is_true : Bool

pub record Resources : Type 0 where
  pub cpu : String
  pub memory : String
  pub pods : ℕ

pub record ApiNode : Type 0 where
  pub name : String
  pub conditions : List NodeCondition
  pub labels : List (String × String)
  pub capacity : Resources
  pub allocatable : Resources

pub record CustomResource : Type 0 where
  pub name : String
  pub group : String
  pub versions : List String
  pub kind : String
