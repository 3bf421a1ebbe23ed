-- ===== src/Deployment/Lifecycle/Diagram.antt =====
-- The state diagram of the aggregate in internal/domain/deployment/entity.go.
use sh_mcp_go.Prelude.{◌≡◌, ◌↔◌, refl, subst, none, some, arith}
use sh_mcp_go.Deployment.Status.{
  Status, pending, planning, deploying, succeeded, failed, rolling_back, rolled_back, upgrading,
}
use sh_mcp_go.Deployment.Errors.{Error, invalid_transition}
use sh_mcp_go.Deployment.Events.{Moment}
use sh_mcp_go.Deployment.Entity.{Deployment}
use sh_mcp_go.Deployment.Lifecycle.{
  Command, start_deployment, mark_succeeded, mark_failed, start_upgrade, start_rollback,
  mark_rolled_back, set_label, set_annotation, step,
}

-- `Edge c s t`: the command may take an aggregate from `s` to `t`.
pub data Edge : Command → Status → Status → Type 0 where
  deploy_pending : Edge start_deployment pending deploying
  deploy_planning : Edge start_deployment planning deploying
  finish_deploying : {rev : _} → Edge (mark_succeeded rev) deploying succeeded
  finish_upgrading : {rev : _} → Edge (mark_succeeded rev) upgrading succeeded
  upgrade : {chart : _} {values : _} → Edge (start_upgrade chart values) succeeded upgrading
  roll_back_failed : {to : _} → Edge (start_rollback to) failed rolling_back
  roll_back_succeeded : {to : _} → Edge (start_rollback to) succeeded rolling_back
  fail : {reason : _} {s : Status} → Edge (mark_failed reason) s failed
  finish_rollback : {to : _} {s : Status} → Edge (mark_rolled_back to) s rolled_back
  label : {key : _} {val : _} {s : Status} → Edge (set_label key val) s s
  annotate : {key : _} {val : _} {s : Status} → Edge (set_annotation key val) s s

ruleset edges = (
  deploy_pending, deploy_planning, finish_deploying, finish_upgrading, upgrade, roll_back_failed,
  roll_back_succeeded, fail, finish_rollback, label, annotate,
)

-- The state that the command leads to, where it leads to one.
abbrev pub target : Command → Status → Status
target start_deployment s = deploying
target (mark_succeeded _) s = succeeded
target (mark_failed _) s = failed
target (start_upgrade _ _) s = upgrading
target (start_rollback _) s = rolling_back
target (mark_rolled_back _) s = rolled_back
target _ s = s

-- A method that returns nil follows an edge of the diagram.
pub step-Edge :
    (m : Moment) (c : Command) (d : Deployment)
    → (step m c d).1 ≡ none
    → Edge c d.status (step m c d).0.status
unfolding step
step-Edge m start_deployment d h = grind (arith, edges)
step-Edge m (mark_succeeded rev) d h = grind (arith, edges)
step-Edge m (start_upgrade chart values) d h = grind (arith, edges)
step-Edge m (start_rollback to) d h = grind (arith, edges)
step-Edge m (mark_failed reason) d h = fail
step-Edge m (mark_rolled_back to) d h = finish_rollback
step-Edge m (set_label key val) d h = label
step-Edge m (set_annotation key val) d h = annotate

Edge-step :
    (m : Moment) (c : Command) (d : Deployment) {s t : Status}
    → Edge c s t
    → d.status ≡ s
    → ((step m c d).1 ≡ none) × ((step m c d).0.status ≡ t)
unfolding step
Edge-step m start_deployment d deploy_pending h = ground arith
Edge-step m start_deployment d deploy_planning h = ground arith
Edge-step m (mark_succeeded rev) d finish_deploying h = ground arith
Edge-step m (mark_succeeded rev) d finish_upgrading h = ground arith
Edge-step m (start_upgrade chart values) d upgrade h = ground arith
Edge-step m (start_rollback to) d roll_back_failed h = ground arith
Edge-step m (start_rollback to) d roll_back_succeeded h = ground arith
Edge-step m (mark_failed reason) d fail h = (refl, refl)
Edge-step m (mark_rolled_back to) d finish_rollback h = (refl, refl)
Edge-step m (set_label key val) d label h = (refl, h)
Edge-step m (set_annotation key val) d annotate h = (refl, h)

-- The diagram describes the methods: a method takes an aggregate to state `t` and returns nil
-- exactly when the diagram has an edge of that method from the aggregate's state to `t`.
pub step-Edge_iff :
    (m : Moment) (c : Command) (d : Deployment) (t : Status)
    → (((step m c d).1 ≡ none) × ((step m c d).0.status ≡ t)) ↔ Edge c d.status t
step-Edge_iff m c d t =
    (λ h. subst (Edge c d.status) h.1 (step-Edge m c d h.0), λ edge. Edge-step m c d edge refl)

-- A method that returns an error leaves the aggregate as it was, its events and its time of update
-- included, and the error names the state that the aggregate is in and the one that was asked for.
pub step_refused :
    (m : Moment) (c : Command) (d : Deployment) (e : Error)
    → (step m c d).1 ≡ some e
    → ((step m c d).0 ≡ d) × (e ≡ invalid_transition d.status (target c d.status))
unfolding step
step_refused m (mark_failed reason) d e h = cc
step_refused m (mark_rolled_back to) d e h = cc
step_refused m (set_label key val) d e h = cc
step_refused m (set_annotation key val) d e h = cc
step_refused m start_deployment d e h = ground arith
step_refused m (mark_succeeded rev) d e h = ground arith
step_refused m (start_upgrade chart values) d e h = ground arith
step_refused m (start_rollback to) d e h = ground arith
