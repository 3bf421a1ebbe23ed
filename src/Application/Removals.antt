-- ===== src/Application/Removals.antt =====
-- What `RollbackChart` and `UninstallChart` of internal/application/deployment/service.go report.
use sh_mcp_go.Prelude.{
  ℕ, String, ◌≡◌, ◌↔◌, inl, inr, refl, none, some, List, ◌∷◌, ok, err, Option-cases, Result-cases,
}
use sh_mcp_go.Deployment.Status
use sh_mcp_go.Deployment.Errors.{Error, wrapped}
use sh_mcp_go.Deployment.Events.{Moment}
use sh_mcp_go.Deployment.Entity
use sh_mcp_go.Deployment.Entity.{Deployment}
use sh_mcp_go.Application.Commands.{RollbackChartCommand, UninstallChartCommand}
use sh_mcp_go.Application.Ports.{
  attempt, attempt_value, Call, save, find, delete, rollback, uninstall, Ports, Run, return_error,
}
use sh_mcp_go.Application.Service.{
  rollback_request, uninstall_request, give_up, finish_rollback, rollback_found, rollback_chart,
  forget, uninstall_chart,
}
use sh_mcp_go.Application.Rules.{
  attempt_rule, attempt_value_rule, transition_rule, mark_failed-state,
}
use sh_mcp_go.Application.Outcomes.{helm_calls, Published, publish_events-Published}

module _ (ports : Ports) (clock : ℕ → Moment) where
  module _ (cmd : RollbackChartCommand) (h : List Call) where
    -- How a rollback ends.
    pub data RolledBack : Run Unit → Type 0 where
      -- Helm rolled back, and the aggregate was saved as ROLLED_BACK and its events published.
      done :
          (k l : List Call) (d : Deployment)
          → helm_calls k ≡ helm_calls h
          → ports.rollback k (rollback_request cmd) ≡ none
          → d.status ≡ Status.rolled_back
          → ports.save (rollback (rollback_request cmd) ∷ k) d ≡ none
          → Published ports clock d (save d ∷ rollback (rollback_request cmd) ∷ k) l
          → RolledBack (l, ok tt)
      -- Helm rolled back, but the aggregate could not be saved.
      unsaved :
          (k : List Call) (d : Deployment) (e : Error)
          → helm_calls k ≡ helm_calls h
          → ports.rollback k (rollback_request cmd) ≡ none
          → d.status ≡ Status.rolled_back
          → ports.save (rollback (rollback_request cmd) ∷ k) d ≡ some e
          → RolledBack (save d ∷ rollback (rollback_request cmd) ∷ k, err e)
      -- Helm failed, a save as FAILED was tried and the events were published.
      helm_failed :
          (k l : List Call) (d : Deployment) (e : Error)
          → helm_calls k ≡ helm_calls h
          → ports.rollback k (rollback_request cmd) ≡ some e
          → d.status ≡ Status.failed
          → Published ports clock d (save d ∷ rollback (rollback_request cmd) ∷ k) l
          → RolledBack (l, err (wrapped "helm rollback" e))
      -- Helm was not called.
      untried : (k : List Call) (e : Error) → helm_calls k ≡ helm_calls h → RolledBack (k, err e)

    mark_rolled_back-state :
        (m : Moment) (to : ℕ) (d : Deployment)
        → (Entity.mark_rolled_back m to d).status ≡ Status.rolled_back
    unfolding Entity.mark_rolled_back
    mark_rolled_back-state m to d = refl

    finish_rollback-RolledBack :
        (d : Deployment) (k : List Call)
        → helm_calls k ≡ helm_calls h
        → ports.rollback k (rollback_request cmd) ≡ none
        → RolledBack
            (finish_rollback ports clock cmd.version d (rollback (rollback_request cmd) ∷ k))
    unfolding finish_rollback
    finish_rollback-RolledBack d k same answer =
        let marked = Entity.mark_rolled_back (clock 2) cmd.version d in
        let state = mark_rolled_back-state (clock 2) cmd.version d in
        attempt_rule RolledBack _ _ return_error _ _
          (λ saved.
            done k _ marked same answer state saved (publish_events-Published ports clock marked _))
          (λ e refused. unsaved k marked e same answer state refused)

    give_up-RolledBack :
        (d : Deployment) (e : Error) (k : List Call)
        → helm_calls k ≡ helm_calls h
        → ports.rollback k (rollback_request cmd) ≡ some e
        → RolledBack (give_up ports clock "helm rollback" d e (rollback (rollback_request cmd) ∷ k))
    unfolding give_up
    give_up-RolledBack d e k same answer =
        helm_failed k _ (Entity.mark_failed (clock 2) (ports.error_text e) d).0 e same answer
          (mark_failed-state (clock 2) (ports.error_text e) d)
          (publish_events-Published ports clock _ _)

    rollback_found-RolledBack :
        (d : Deployment) (k : List Call)
        → helm_calls k ≡ helm_calls h
        → RolledBack (rollback_found ports clock cmd d k)
    unfolding rollback_found
    rollback_found-RolledBack d k same =
        let started = (Entity.start_rollback (clock 1) cmd.version d).0 in
        transition_rule RolledBack _ k _
          (λ _.
            attempt_rule RolledBack _ _ return_error k _
              (λ _.
                attempt_rule RolledBack _ _ _ _ _
                  (λ answer. finish_rollback-RolledBack started (save started ∷ k) same answer)
                  (λ e answer. give_up-RolledBack started e (save started ∷ k) same answer))
              (λ e _. untried (save started ∷ k) e same))
          (λ e _. untried k e same)

    -- `RollbackChart` calls Helm once or not at all. Where it returns nil, Helm has rolled back and
    -- the aggregate was then saved as ROLLED_BACK. Where it returns an error, Helm was not called,
    -- or Helm failed and then a save of the aggregate as FAILED was tried, whose own error is
    -- dropped, or only the last save failed. After the save as ROLLED_BACK, and after the one as
    -- FAILED also where that save fails, a publisher that is there gets all events of the aggregate
    -- in one call, where it has any; the publisher's answer does not matter.
    pub rollback_chart-RolledBack : RolledBack (rollback_chart ports clock cmd h)
    unfolding rollback_chart
    rollback_chart-RolledBack =
        attempt_value_rule RolledBack _ _ _ h _ (λ d _. rollback_found-RolledBack d _ refl)
          (λ e _. untried _ _ refl)

  module _ (cmd : UninstallChartCommand) (h : List Call) where
    abbrev pub uninstalled : List Call
    uninstalled = uninstall (uninstall_request cmd) ∷ h

    abbrev pub searched : List Call
    searched = find cmd.release_name cmd.namespace ∷ uninstalled

    -- `UninstallChart` returns nil exactly when Helm does, whatever the store answers and also for a dry
    -- run. It calls the store's `Delete` with an id, once and as the last call, exactly where Helm
    -- succeeds and the store then finds a record of the release with that id; the answer of `Delete` is
    -- dropped. Where Helm fails, exactly then, nothing is called after it.
    pub uninstall_chart-delete_iff :
        (id : String)
        → (((uninstall_chart ports clock cmd h).1 ≡ ok tt)
            ↔ (ports.uninstall h (uninstall_request cmd) ≡ none))
          × (((uninstall_chart ports clock cmd h).0 ≡ delete id ∷ searched) ↔ (
              (ports.uninstall h (uninstall_request cmd) ≡ none)
              × (d : Deployment) × (ports.find uninstalled cmd.release_name cmd.namespace ≡ ok d)
              × (d.id ≡ id)))
          × (((uninstall_chart ports clock cmd h).0 ≡ uninstalled)
              ↔ ((e : Error) × (ports.uninstall h (uninstall_request cmd) ≡ some e)))
    unfolding uninstall_chart forget attempt attempt_value
    uninstall_chart-delete_iff id =
        elim (Option-cases (ports.uninstall h (uninstall_request cmd))) [
          | inr (e, refused) ↦
              rw (refused, uninstall_chart)
                (
                  (λ same. cc, λ same. cc),
                  (λ same. cc, λ (same, _, _, _). cc),
                  (λ _. (e, refl), λ _. refl),
                )
          | inl went ↦ elim (Result-cases (ports.find uninstalled cmd.release_name cmd.namespace)) [
            | inl (d, found) ↦
                rw (went, uninstall_chart, forget, found)
                  (
                    (λ _. refl, λ _. refl),
                    (λ same. (refl, d, refl, cc), λ (_, x, same, id_same). cc),
                    (λ same. cc, λ (_, same). cc),
                  )
            | inr (e, missing) ↦
                rw (went, uninstall_chart, forget, missing)
                  (
                    (λ _. refl, λ _. refl),
                    (λ same. cc, λ (_, x, same, _). cc),
                    (λ same. cc, λ (_, same). cc),
                  )
          ]
        ]
