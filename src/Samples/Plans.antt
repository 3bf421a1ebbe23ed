-- ===== src/Samples/Plans.antt =====
-- A plan of two steps: the theorems on internal/domain/plan at concrete inputs.
use sh_mcp_go.Prelude.{◌≤◌, ◌≡◌, ◌≢◌, ◌↔◌, ◌⊎◌, inl, refl, none, some, List, [], ◌∷◌, ◌++◌, All}
use mathlib.Core.List.{Memᴰ}
use sh_mcp_go.Plan.Steps.{
  Step, create_namespace, install_chart, pending, running, succeeded, new_step,
}
use sh_mcp_go.Plan.Entity.{
  Plan, executing, new_plan, step_not_found, update_step_status, ready_steps,
}
use sh_mcp_go.Plan.Ready.{IsMet, mem-ready_steps}
use sh_mcp_go.Plan.Progress.{IsOrdered, ready_steps_progress}
use sh_mcp_go.Plan.Updates.{IsFirst, updated, update_step_status_lem}
use sh_mcp_go.Plan.Lifecycle.{
  Command, approve, start, update_step_status as update, has_deployment, run, starts, run-started,
}
use sh_mcp_go.Plan.Execution.{run-IsOrdered}

abbrev pub namespace_step : Step
unfolding new_step
namespace_step = new_step "ns" create_namespace "Create namespace" [] []

abbrev pub chart_step : Step
unfolding new_step
chart_step = new_step "chart" install_chart "Install" [] ("ns" ∷ [])

abbrev pub two_steps : Plan
unfolding new_plan
two_steps = new_plan "p" 5 "install nginx" (namespace_step ∷ chart_step ∷ [])

two_steps-IsOrdered : IsOrdered [] two_steps.steps
unfolding two_steps namespace_step chart_step
two_steps-IsOrdered = (tt, ((Memᴰ.head refl, tt), tt))

abbrev pub some_calls : List Command
some_calls =
    approve 6
    ∷ start 7 "d"
    ∷ start 8 "d"
    ∷ update 9 "ns" running ""
    ∷ update 10 "ns" succeeded ""
    ∷ []

mem-ready_steps_example : Memᴰ chart_step (ready_steps two_steps) ↔ (
    Memᴰ chart_step two_steps.steps
    × (pending ≡ pending)
    × All (IsMet two_steps.steps) chart_step.depends_on)
unfolding chart_step
mem-ready_steps_example = mem-ready_steps two_steps chart_step

ready_steps_progress_example : (t : Step) × Memᴰ t (ready_steps two_steps)
unfolding two_steps namespace_step chart_step
ready_steps_progress_example =
    ready_steps_progress two_steps two_steps-IsOrdered (inl refl, (inl refl, tt)) namespace_step
      (Memᴰ.head refl) refl

update_step_status_lem_example :
    ((before : List Step) × (s : Step) × (after : List Step) × IsFirst "chart" two_steps.steps
        before s after
      × (update_step_status 9 "chart" running "" two_steps ≡ (
        record two_steps { steps = before ++ updated 9 running "" s ∷ after; updated_at = 9 },
        none,
      )))
    ⊎ (All (λ t. t.id ≢ "chart") two_steps.steps
        × (update_step_status 9 "chart" running "" two_steps
            ≡ (two_steps, some (step_not_found "chart"))))
update_step_status_lem_example = update_step_status_lem 9 "chart" running "" two_steps

run-started_example :
    (starts some_calls two_steps ≤ 1)
    × (starts some_calls two_steps ≡ has_deployment (run some_calls two_steps))
    × (((run some_calls two_steps).status ≢ executing)
        ⊎ (has_deployment (run some_calls two_steps) ≡ 1))
unfolding two_steps
run-started_example =
    run-started "p" 5 "install nginx" (namespace_step ∷ chart_step ∷ []) some_calls

run-IsOrdered_example : IsOrdered [] (run some_calls two_steps).steps
run-IsOrdered_example = run-IsOrdered some_calls two_steps two_steps-IsOrdered
