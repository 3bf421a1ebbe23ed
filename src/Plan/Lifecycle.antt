-- ===== src/Plan/Lifecycle.antt =====
-- Sequences of method calls on one plan of internal/domain/plan/entity.go.
use sh_mcp_go.Prelude.{
  ℕ, ◌+◌, ◌≤◌, String, ◌≡◌, ◌≢◌, ◌⊎◌, inl, inr, Bool, true, false, Option, none, some, List, [],
  ◌∷◌, arith,
}
use sh_mcp_go.Plan.Steps.{Step, StepStatus}
use sh_mcp_go.Plan.Entity
use sh_mcp_go.Plan.Entity.{
  Plan, PlanStatus, PlanError, Outcome, draft, approved, executing, new_plan,
}

pub data Command : Type 0 where
  approve : (now : ℕ) → Command
  start : (now : ℕ) → (deployment_id : String) → Command
  update_step_status : (now : ℕ) → (step_id : String) → StepStatus → (err_msg : String) → Command
  complete fail abort : (now : ℕ) → Command
  set_rollback_plan : (now : ℕ) → Option ℕ → Command

unfoldable pub step : Command → Plan → Outcome
unfolding Entity.approve Entity.start Entity.update_step_status Entity.complete Entity.fail
    Entity.abort Entity.set_rollback_plan
step (approve now) p = Entity.approve now p
step (start now id) p = Entity.start now id p
step (update_step_status now step_id status err_msg) p =
    Entity.update_step_status now step_id status err_msg p
step (complete now) p = (Entity.complete now p, none)
step (fail now) p = (Entity.fail now p, none)
step (abort now) p = (Entity.abort now p, none)
step (set_rollback_plan now rollback) p = (Entity.set_rollback_plan now rollback p, none)

-- The plan after the calls, whatever errors they returned.
unfoldable pub run : List Command → Plan → Plan
run [] p = p
run (c ∷ cs) p = run cs (step c p).0

abbrev is_start : Command → Bool
is_start (start now id) = true
is_start _ = false

-- One, where the call is of `Start` and returns nil.
abbrev accepted : Bool → Option PlanError → ℕ
accepted true none = 1
accepted _ _ = 0

-- How often `Start` returned nil.
unfoldable pub starts : List Command → Plan → ℕ
starts [] p = 0
starts (c ∷ cs) p = accepted (is_start c) (step c p).1 + starts cs (step c p).0

abbrev pub has_deployment : Plan → ℕ
has_deployment p = elim p.deployment_id [ none ↦ 0 | some _ ↦ 1 ]

pub record IsSound (p : Plan) : Type 0 where
  pub draft_unstarted : p.status ≡ draft → p.deployment_id ≡ none
  pub approved_unstarted : p.status ≡ approved → p.deployment_id ≡ none
  pub executing_started : p.status ≡ executing → has_deployment p ≡ 1

step-IsSound : (c : Command) (p : Plan) → IsSound p → IsSound (step c p).0
unfolding step
step-IsSound (approve now) p h = ground arith
step-IsSound (start now id) p h = ground arith
step-IsSound (update_step_status now step_id status err_msg) p h = ground arith
step-IsSound (complete now) p h = ground arith
step-IsSound (fail now) p h = ground arith
step-IsSound (abort now) p h = ground arith
step-IsSound (set_rollback_plan now rollback) p h = ground arith

step-starts :
    (c : Command) (p : Plan)
    → IsSound p
    → accepted (is_start c) (step c p).1 + has_deployment p ≡ has_deployment (step c p).0
unfolding step
step-starts (approve now) p h = ground arith
step-starts (start now id) p h = ground arith
step-starts (update_step_status now step_id status err_msg) p h = ground arith
step-starts (complete now) p h = ground arith
step-starts (fail now) p h = ground arith
step-starts (abort now) p h = ground arith
step-starts (set_rollback_plan now rollback) p h = ground arith

run-starts :
    (cs : List Command) (p : Plan)
    → IsSound p
    → IsSound (run cs p) × (starts cs p + has_deployment p ≡ has_deployment (run cs p))
unfolding run starts
run-starts [] p h = (h, omega arith)
run-starts (c ∷ cs) p h =
    let (sound, counted) = run-starts cs (step c p).0 (step-IsSound c p h) in
    (sound, omega (arith, counted, step-starts c p h))

executing_or_not : (p : Plan) → IsSound p → (p.status ≢ executing) ⊎ (has_deployment p ≡ 1)
executing_or_not p h = elim (deployed p) [
  | inl none_yet ↦ inl (λ e. omega (arith, none_yet, h.executing_started e))
  | inr one ↦ inr one
]
  where
    deployed : (p : Plan) → (has_deployment p ≡ 0) ⊎ (has_deployment p ≡ 1)
    deployed p = ground arith

has_deployment-le : (p : Plan) → has_deployment p ≤ 1
has_deployment-le p = ground arith

-- Whatever the calls on a new plan, `Start` returns nil at most once, the plan has a deployment's id
-- exactly when it has, and a plan that is executing has one.
pub run-started :
    (id : String) (now : ℕ) (intent : String) (steps : List Step) (cs : List Command)
    → let p = new_plan id now intent steps in
      (starts cs p ≤ 1)
      × (starts cs p ≡ has_deployment (run cs p))
      × (((run cs p).status ≢ executing) ⊎ (has_deployment (run cs p) ≡ 1))
unfolding new_plan
run-started id now intent steps cs =
    let p = new_plan id now intent steps in
    let (sound, counted) = run-starts cs p (ground arith) in
    (
      omega (arith, counted, has_deployment-le (run cs p)),
      omega (arith, counted),
      executing_or_not (run cs p) sound,
    )
