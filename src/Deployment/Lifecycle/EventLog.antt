-- ===== src/Deployment/Lifecycle/EventLog.antt =====
-- The events of an aggregate of internal/domain/deployment/entity.go across drains.
use sh_mcp_go.Prelude.{◌≡◌, refl, sym, ap, ◌∙◌, List, [], ◌∷◌, ◌++◌, arith}
use mathlib.Core.List.{append_assoc, append-nil}
use sh_mcp_go.Deployment.Status.{Status}
use sh_mcp_go.Deployment.Events.{
  Moment, Detail, started, succeeded, failed, upgrade_started, rollback_started, rolled_back, Event,
  new_event,
}
use sh_mcp_go.Deployment.Entity.{Deployment, record_event}
use sh_mcp_go.Deployment.Lifecycle.{
  Command, start_deployment, mark_succeeded, mark_failed, start_upgrade, start_rollback,
  mark_rolled_back, set_label, set_annotation, Call, command, drain, step, run,
}

-- The calls without the drains.
abbrev pub commands : List Call → List Call
commands [] = []
commands (command m c ∷ calls) = command m c ∷ commands calls
commands (drain ∷ calls) = commands calls

-- The aggregate with earlier events put in front of its own.
abbrev prefixed : List Event → Deployment → Deployment
prefixed earlier d = record d { events = earlier ++ d.events }

record_event-prefixed :
    (m : Moment) (detail : Detail) (earlier : List Event) (d : Deployment)
    → record_event m detail (prefixed earlier d) ≡ prefixed earlier (record_event m detail d)
unfolding record_event
record_event-prefixed m detail earlier d =
    ap (λ es. record d { events = es }) (append_assoc earlier d.events _)

-- What `record_event` appends.
abbrev recorded : Moment → Detail → Deployment → List Event
recorded m detail d = new_event m d.id d.name d.namespace detail ∷ []

step-prefixed :
    (m : Moment) (c : Command) (earlier : List Event) (d : Deployment)
    → (step m c (prefixed earlier d)).0 ≡ prefixed earlier (step m c d).0
unfolding step
step-prefixed m start_deployment earlier d =
    ground (arith, append_assoc earlier d.events (recorded m started d))
step-prefixed m (mark_succeeded rev) earlier d =
    ground (arith, append_assoc earlier d.events (recorded m (succeeded rev) d))
step-prefixed m (mark_failed reason) earlier d =
    record_event-prefixed m (failed reason) earlier
      (record d { status = Status.failed; updated_at = m.updated_at })
step-prefixed m (start_upgrade chart values) earlier d =
    ground (arith, append_assoc earlier d.events (recorded m (upgrade_started chart) d))
step-prefixed m (start_rollback to) earlier d =
    ground (arith, append_assoc earlier d.events (recorded m (rollback_started to) d))
step-prefixed m (mark_rolled_back to) earlier d =
    record_event-prefixed m (rolled_back to) earlier
      (record d { status = Status.rolled_back; updated_at = m.updated_at })
step-prefixed m (set_label key val) earlier d = refl
step-prefixed m (set_annotation key val) earlier d = refl

run-prefixed :
    (calls : List Call) (earlier : List Event) (d : Deployment)
    → (run (commands calls) (prefixed earlier d)).0
      ≡ prefixed (earlier ++ (run calls d).1) (run calls d).0
unfolding run
run-prefixed [] earlier d = rw append-nil
run-prefixed (command m c ∷ calls) earlier d =
    ap (λ x. (run (commands calls) x).0) (step-prefixed m c earlier d)
    ∙ run-prefixed calls earlier (step m c d).0
run-prefixed (drain ∷ calls) earlier d =
    let d' = record d { events = [] } in
    let joined : prefixed earlier d ≡ prefixed (earlier ++ d.events) d' =
      ap (λ es. record d { events = es }) (sym (append-nil (earlier ++ d.events))) in
    ap (λ x. (run (commands calls) x).0) joined
    ∙ run-prefixed calls (earlier ++ d.events) d'
    ∙ ap (λ es. prefixed es (run calls d').0) (append_assoc earlier d.events (run calls d').1)

-- Drains lose, repeat and reorder no event and change nothing else: the same commands without the
-- drains leave the same aggregate, with the drained events, in order, in front of those not drained.
pub run-commands :
    (calls : List Call) (d : Deployment)
    → (run (commands calls) d).0
      ≡ record (run calls d).0 { events = (run calls d).1 ++ (run calls d).0.events }
run-commands calls d = run-prefixed calls [] d
