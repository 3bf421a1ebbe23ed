-- ===== src/Plan/Execution.antt =====
-- The order of dependency of the steps of internal/domain/plan/entity.go under the methods of the plan.
use sh_mcp_go.Prelude.{
  ℕ, String, ◌≡◌, Option, none, some, List, [], ◌∷◌, ◌==◌, All, Bool-cases, inl, inr, arith,
  Option-cases, subst,
}
use sh_mcp_go.Plan.Steps.{Step, StepStatus}
use sh_mcp_go.Plan.Entity
use sh_mcp_go.Plan.Entity.{Plan, prepend, update_first, new_plan, touch, ready_steps}
use sh_mcp_go.Plan.Lifecycle.{
  Command, approve, start, update_step_status, complete, fail, abort, set_rollback_plan, step, run,
}
use sh_mcp_go.Plan.Progress.{IsOrdered}
use mathlib.Core.List.{Memᴰ}

touch-id :
    (now : ℕ) (status : StepStatus) (err_msg : String) (s : Step)
    → ((touch now status err_msg s).id ≡ s.id)
      × ((touch now status err_msg s).depends_on ≡ s.depends_on)
unfolding touch
touch-id now status err_msg s = ground arith

module _ (now : ℕ) (step_id : String) (status : StepStatus) (err_msg : String) where
  -- The order holds of the updated steps, where there are any.
  abbrev Keeps : List String → Option (List Step) → Type 0
  Keeps seen none = Unit
  Keeps seen (some steps) = IsOrdered seen steps

  Keeps-prepend :
      (seen : List String) (s : Step) (r : Option (List Step))
      → All (λ d. Memᴰ d seen) s.depends_on
      → Keeps (s.id ∷ seen) r
      → Keeps seen (prepend s r)
  Keeps-prepend seen s none deps h = tt
  Keeps-prepend seen s (some steps) deps h = (deps, h)

  Keeps-update_first :
      (seen : List String) (steps : List Step)
      → IsOrdered seen steps
      → Keeps seen (update_first now step_id status err_msg steps)
  unfolding update_first
  Keeps-update_first seen [] h = tt
  Keeps-update_first seen (s ∷ steps) h = elim (Bool-cases (s.id == step_id)) [
    | inl e ↦
        let (same_id, same_deps) = touch-id now status err_msg s in rw (e, same_id, same_deps) h
    | inr e ↦ rw e (Keeps-prepend seen s _ h.0 (Keeps-update_first (s.id ∷ seen) steps h.1))
  ]

  update_step_status-IsOrdered :
      (p : Plan)
      → IsOrdered [] p.steps
      → IsOrdered [] (Entity.update_step_status now step_id status err_msg p).0.steps
  unfolding Entity.update_step_status
  update_step_status-IsOrdered p h =
      elim (Option-cases (update_first now step_id status err_msg p.steps)) [
        | inl e ↦ rw (e, Entity.update_step_status) h
        | inr (steps, e) ↦
            rw (e, Entity.update_step_status) (subst (Keeps []) e (Keeps-update_first [] p.steps h))
      ]

approve-steps : (now : ℕ) (p : Plan) → (Entity.approve now p).0.steps ≡ p.steps
unfolding Entity.approve
approve-steps now p = ground arith

start-steps : (now : ℕ) (id : String) (p : Plan) → (Entity.start now id p).0.steps ≡ p.steps
unfolding Entity.start
start-steps now id p = ground arith

step-IsOrdered : (c : Command) (p : Plan) → IsOrdered [] p.steps → IsOrdered [] (step c p).0.steps
unfolding step
step-IsOrdered (approve now) p h = rw (approve-steps now p) h
step-IsOrdered (start now id) p h = rw (start-steps now id p) h
step-IsOrdered (update_step_status now step_id status err_msg) p h =
    update_step_status-IsOrdered now step_id status err_msg p h
step-IsOrdered (complete now) p h = h
step-IsOrdered (fail now) p h = h
step-IsOrdered (abort now) p h = h
step-IsOrdered (set_rollback_plan now rollback) p h = h

-- Where each step of a plan depends only on ids of steps before it, that is still so after any calls
-- of the plan's methods.
pub run-IsOrdered :
    (cs : List Command) (p : Plan) → IsOrdered [] p.steps → IsOrdered [] (run cs p).steps
unfolding run
run-IsOrdered [] p h = h
run-IsOrdered (c ∷ cs) p h = run-IsOrdered cs (step c p).0 (step-IsOrdered c p h)
