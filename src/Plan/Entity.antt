-- ===== src/Plan/Entity.antt =====
-- internal/domain/plan/entity.go: the plan and its methods. A method that mutates `*Plan` returns the
-- new record, and its error, where it has one, as an `Option`.
use sh_mcp_go.Prelude.{
  ℕ, String, Bool, true, false, not, ◌&&◌, ◌||◌, Option, none, some, List, [], ◌∷◌, if◌then◌else◌,
  ◌==◌,
}
use sh_mcp_go.Plan.Steps.{Step, StepStatus, running, succeeded, skipped, is_pending, is_done}

-- `other` holds the strings that name no declared status.
pub data PlanStatus : Type 0 where
  draft approved executing completed failed aborted : PlanStatus
  other : String → PlanStatus

pub data PlanError : Type 0 where
  -- `plan can only be approved from DRAFT status, current: %s`
  not_draft : PlanStatus → PlanError
  -- `plan must be approved before starting, current: %s`
  not_approved : PlanStatus → PlanError
  -- `step %q not found in plan`
  step_not_found : String → PlanError

-- `rollback_plan` is the pointer to another plan, by its address.
pub record Plan : Type 0 where
  pub id : String
  pub intent : String
  pub steps : List Step
  pub status : PlanStatus
  pub rollback_plan : Option ℕ
  pub created_at : ℕ
  pub updated_at : ℕ
  pub deployment_id : Option String

-- `NewPlan`; `id` is the generated one, and `now` the time that is read.
unfoldable pub new_plan : (id : String) (now : ℕ) (intent : String) → List Step → Plan
new_plan id now intent steps = record {
  id = id;
  intent = intent;
  steps = steps;
  status = draft;
  rollback_plan = none;
  created_at = now;
  updated_at = now;
  deployment_id = none;
}

abbrev pub Outcome : Type 0
Outcome = Plan × Option PlanError

abbrev is_draft : PlanStatus → Bool
is_draft draft = true
is_draft _ = false

abbrev is_approved : PlanStatus → Bool
is_approved approved = true
is_approved _ = false

unfoldable pub approve : (now : ℕ) → Plan → Outcome
approve now p =
    if not (is_draft p.status)
    then (p, some (not_draft p.status))
    else (record p { status = approved; updated_at = now }, none)

unfoldable pub start : (now : ℕ) → (deployment_id : String) → Plan → Outcome
start now deployment_id p =
    if not (is_approved p.status) then (p, some (not_approved p.status)) else (
      record p { status = executing; deployment_id = some deployment_id; updated_at = now },
      none,
    )

-- The `switch` on the status: which time is set.
unfoldable pub stamp : (now : ℕ) → StepStatus → Step → Step
stamp now running s = record s { started_at = some now }
stamp now succeeded s = record s { completed_at = some now }
stamp now StepStatus.failed s = record s { completed_at = some now }
stamp now skipped s = record s { completed_at = some now }
stamp now _ s = s

-- The step with its new status and error text.
unfoldable pub touch : (now : ℕ) → StepStatus → (err_msg : String) → Step → Step
unfolding stamp
touch now status err_msg s = stamp now status (record s { status = status; error = err_msg })

abbrev pub prepend : Step → Option (List Step) → Option (List Step)
prepend s none = none
prepend s (some steps) = some (s ∷ steps)

-- The loop of `UpdateStepStatus` over the steps; `none` where no step has the id.
unfoldable pub update_first :
    (now : ℕ)
    → (step_id : String) → StepStatus
    → (err_msg : String) → List Step
    → Option (List Step)
update_first now step_id status err_msg [] = none
update_first now step_id status err_msg (s ∷ steps) =
    if s.id == step_id
    then some (touch now status err_msg s ∷ steps)
    else prepend s (update_first now step_id status err_msg steps)

unfoldable pub update_step_status :
    (now : ℕ) → (step_id : String) → StepStatus → (err_msg : String) → Plan → Outcome
unfolding update_first touch
update_step_status now step_id status err_msg p =
    elim (update_first now step_id status err_msg p.steps) [
      | none ↦ (p, some (step_not_found step_id))
      | some steps ↦ (record p { steps = steps; updated_at = now }, none)
    ]

unfoldable pub complete : (now : ℕ) → Plan → Plan
complete now p = record p { status = completed; updated_at = now }

unfoldable pub fail : (now : ℕ) → Plan → Plan
fail now p = record p { status = failed; updated_at = now }

unfoldable pub abort : (now : ℕ) → Plan → Plan
abort now p = record p { status = aborted; updated_at = now }

unfoldable pub set_rollback_plan : (now : ℕ) → (rollback : Option ℕ) → Plan → Plan
set_rollback_plan now rollback p = record p { rollback_plan = rollback; updated_at = now }

-- `completed[id]`, for the map that the first loop of `ReadySteps` fills.
unfoldable pub is_completed : List Step → String → Bool
is_completed [] id = false
is_completed (s ∷ steps) id = is_done s.status && s.id == id || is_completed steps id

-- The loop over the dependencies.
unfoldable pub all_completed : (done : String → Bool) → List String → Bool
all_completed done [] = true
all_completed done (dep ∷ deps) = done dep && all_completed done deps

-- The second loop of `ReadySteps`.
unfoldable pub ready_from : (done : String → Bool) → List Step → List Step
unfolding all_completed
ready_from done [] = []
ready_from done (s ∷ steps) =
    if is_pending s.status && all_completed done s.depends_on
    then s ∷ ready_from done steps
    else ready_from done steps

unfoldable pub ready_steps : Plan → List Step
unfolding is_completed ready_from
ready_steps p = ready_from (is_completed p.steps) p.steps
