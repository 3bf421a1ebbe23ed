-- ===== src/Plan/Steps.antt =====
-- internal/domain/plan/entity.go: the steps of a plan.
use sh_mcp_go.Prelude.{ℕ, String, Bool, true, false, Option, none, List, Any}

pub data StepType : Type 0 where
  create_namespace install_crds install_dependency install_chart upgrade_chart : StepType
  rollback_chart uninstall_chart install_operator validate_readiness : StepType
  configure_ingress configure_storage run_health_check run_security_scan : StepType

-- `other` holds the strings that name no declared status.
pub data StepStatus : Type 0 where
  pending running succeeded failed skipped : StepStatus
  other : String → StepStatus

abbrev pub Params : Type 0
Params = List (String × Any)

pub record Step : Type 0 where
  pub id : String
  pub step_type : StepType
  pub description : String
  pub params : Params
  pub status : StepStatus
  pub depends_on : List String
  pub error : String
  pub started_at : Option ℕ
  pub completed_at : Option ℕ

-- `NewStep`; `id` is the generated one.
unfoldable pub new_step :
    (id : String) → StepType → (desc : String) → Params → (depends_on : List String) → Step
new_step id step_type desc params depends_on = record {
  id = id;
  step_type = step_type;
  description = desc;
  params = params;
  status = pending;
  depends_on = depends_on;
  error = "";
  started_at = none;
  completed_at = none;
}

abbrev pub is_pending : StepStatus → Bool
is_pending pending = true
is_pending _ = false

-- The statuses that `ReadySteps` counts as completed.
abbrev pub is_done : StepStatus → Bool
is_done succeeded = true
is_done skipped = true
is_done _ = false
