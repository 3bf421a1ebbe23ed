-- ===== src/Application/Rules.antt =====
-- Rules for what holds of a method of internal/application/deployment/service.go: one for each way in
-- which it goes on after a call.
use sh_mcp_go.Prelude.{String, ◌≡◌, refl, Option, none, some, List, ◌∷◌, Result, ok, err, arith}
use sh_mcp_go.Deployment.Status.{Status, deploying, upgrading, rolling_back}
use sh_mcp_go.Deployment.Errors.{Error}
use sh_mcp_go.Deployment.Chart.{ChartReference}
use sh_mcp_go.Deployment.Values.{Values}
use sh_mcp_go.Deployment.Events.{Moment}
use sh_mcp_go.Deployment.Entity
use sh_mcp_go.Deployment.Entity.{Deployment, Outcome}
use sh_mcp_go.Application.Ports.{Call, Run, attempt, attempt_value, transition}

module _ {A : Type 0} (P : Run A → Type 0) where
  pub attempt_rule :
      (answer : Option Error) (c : Call) (failed : Error → List Call → Run A) (h : List Call)
      (next : List Call → Run A)
      → (answer ≡ none → P (next (c ∷ h)))
      → ((e : Error) → answer ≡ some e → P (failed e (c ∷ h)))
      → P (attempt answer c failed h next)
  unfolding attempt
  attempt_rule none c failed h next good bad = good refl
  attempt_rule (some e) c failed h next good bad = bad e refl

  pub attempt_value_rule :
      {V : Type 0} (answer : Result Error V) (c : Call) (failed : Error → List Call → Run A)
      (h : List Call) (next : V → List Call → Run A)
      → ((v : V) → answer ≡ ok v → P (next v (c ∷ h)))
      → ((e : Error) → answer ≡ err e → P (failed e (c ∷ h)))
      → P (attempt_value answer c failed h next)
  unfolding attempt_value
  attempt_value_rule (ok v) c failed h next good bad = good v refl
  attempt_value_rule (err e) c failed h next good bad = bad e refl

  pub transition_rule :
      (o : Outcome) (h : List Call) (next : Deployment → Run A)
      → (o.1 ≡ none → P (next o.0))
      → ((e : Error) → o.1 ≡ some e → P (h, err e))
      → P (transition o h next)
  unfolding transition
  transition_rule (d, none) h next good bad = good refl
  transition_rule (d, some e) h next good bad = bad e refl

-- The aggregate is one of that release, in that state.
pub record IsIn (s : Status) (name ns : String) (d : Deployment) : Type 0 where
  pub state : d.status ≡ s
  pub named : d.name ≡ name
  pub placed : d.namespace ≡ ns

-- The aggregate is one of that release.
pub record IsOf (name ns : String) (d : Deployment) : Type 0 where
  pub named : d.name ≡ name
  pub placed : d.namespace ≡ ns

module _ (m : Moment) (name ns : String) (d : Deployment) where
  pub start_deployment-IsIn :
      IsOf name ns d
      → (Entity.start_deployment m d).1 ≡ none
      → IsIn deploying name ns (Entity.start_deployment m d).0
  unfolding Entity.start_deployment
  start_deployment-IsIn o h = ground (arith, o.named, o.placed)

  pub start_upgrade-IsIn :
      (chart : ChartReference) (values : Values)
      → IsOf name ns d
      → (Entity.start_upgrade m chart values d).1 ≡ none
      → IsIn upgrading name ns (Entity.start_upgrade m chart values d).0
  unfolding Entity.start_upgrade
  start_upgrade-IsIn chart values o h = ground (arith, o.named, o.placed)

  pub start_rollback-IsIn :
      (to : _)
      → IsOf name ns d
      → (Entity.start_rollback m to d).1 ≡ none
      → IsIn rolling_back name ns (Entity.start_rollback m to d).0
  unfolding Entity.start_rollback
  start_rollback-IsIn to o h = ground (arith, o.named, o.placed)

pub mark_failed-state :
    (m : Moment) (reason : String) (d : Deployment)
    → (Entity.mark_failed m reason d).0.status ≡ Status.failed
unfolding Entity.mark_failed
mark_failed-state m reason d = refl
