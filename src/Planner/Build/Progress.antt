-- ===== src/Planner/Build/Progress.antt =====
-- Progress of the plans that internal/application/planner/service.go builds.
use sh_mcp_go.Prelude.{ℕ, String, ◌≡◌, List, [], ok}
use mathlib.Core.List.{Memᴰ}
use sh_mcp_go.Plan.Steps.{Step, pending}
use sh_mcp_go.Plan.Entity.{new_plan, ready_steps}
use sh_mcp_go.Plan.Lifecycle.{Command, run}
use sh_mcp_go.Plan.Progress.{IsOrdered, IsSettled, ready_steps_progress}
use sh_mcp_go.Plan.Execution.{run-IsOrdered}
use sh_mcp_go.Planner.Intent.{Intent}
use sh_mcp_go.Planner.Build.{Outside, build_steps}
use sh_mcp_go.Planner.Build.Order.{build_steps-IsOrdered}

new_plan-IsOrdered :
    (id : String) (now : ℕ) (text : String) (steps : List Step)
    → IsOrdered [] steps
    → IsOrdered [] (new_plan id now text steps).steps
unfolding new_plan
new_plan-IsOrdered id now text steps h = h

-- Take a plan of the steps that are built for an intent, after any calls of the plan's methods: where
-- each of its steps is pending, has succeeded or was skipped, and some step is pending, some step is
-- ready.
pub build_steps_progress :
    (o : Outside) (intent : Intent) (steps : List Step) (warnings : List String)
    → build_steps o intent ≡ ok (steps, warnings)
    → (id : String) (now : ℕ) (text : String) (cs : List Command)
    → IsSettled (run cs (new_plan id now text steps)).steps
    → (s : Step) → Memᴰ s (run cs (new_plan id now text steps)).steps
    → s.status ≡ pending
    → (t : Step) × Memᴰ t (ready_steps (run cs (new_plan id now text steps)))
build_steps_progress o intent steps warnings built id now text cs =
    let p = new_plan id now text steps in
    ready_steps_progress (run cs p) (
      run-IsOrdered cs p
        (new_plan-IsOrdered id now text steps (build_steps-IsOrdered o intent built)))
