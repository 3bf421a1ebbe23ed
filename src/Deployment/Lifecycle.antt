-- ===== src/Deployment/Lifecycle.antt =====
-- Sequences of method calls on one aggregate of internal/domain/deployment/entity.go.
pub mod Diagram
pub mod Versions
pub mod EventLog
use sh_mcp_go.Prelude.{ℕ, String, none, List, [], ◌∷◌, ◌++◌}
use sh_mcp_go.Deployment.Chart.{ChartReference}
use sh_mcp_go.Deployment.Values.{Values}
use sh_mcp_go.Deployment.Events.{Moment, Event}
use sh_mcp_go.Deployment.Entity
use sh_mcp_go.Deployment.Entity.{Deployment, Outcome}

-- The exported methods that change an aggregate, but for `DrainEvents`.
pub data Command : Type 0 where
  start_deployment : Command
  mark_succeeded : (helm_revision : ℕ) → Command
  mark_failed : (reason : String) → Command
  start_upgrade : ChartReference → Values → Command
  start_rollback : (to_version : ℕ) → Command
  mark_rolled_back : (to_version : ℕ) → Command
  set_label : (key val : String) → Command
  set_annotation : (key val : String) → Command

unfoldable pub step : Moment → Command → Deployment → Outcome
unfolding Entity.start_deployment Entity.mark_succeeded Entity.mark_failed Entity.start_upgrade
    Entity.start_rollback Entity.mark_rolled_back Entity.set_label Entity.set_annotation
step m start_deployment d = Entity.start_deployment m d
step m (mark_succeeded helm_revision) d = Entity.mark_succeeded m helm_revision d
step m (mark_failed reason) d = Entity.mark_failed m reason d
step m (start_upgrade chart values) d = Entity.start_upgrade m chart values d
step m (start_rollback to_version) d = Entity.start_rollback m to_version d
step m (mark_rolled_back to_version) d = (Entity.mark_rolled_back m to_version d, none)
step m (set_label key val) d = (Entity.set_label m key val d, none)
step m (set_annotation key val) d = (Entity.set_annotation m key val d, none)

pub data Call : Type 0 where
  command : Moment → Command → Call
  drain : Call

-- The aggregate after the calls, whatever errors they returned, and the events that were drained.
unfoldable pub run : List Call → Deployment → Deployment × List Event
unfolding Entity.drain_events
run [] d = (d, [])
run (command m c ∷ calls) d = run calls (step m c d).0
run (drain ∷ calls) d =
    let (d', drained) = Entity.drain_events d in
    let (last, more) = run calls d' in (last, drained ++ more)
