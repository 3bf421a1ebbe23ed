-- ===== src/Deployment/Lifecycle/Versions.antt =====
-- What holds of an aggregate of internal/domain/deployment/entity.go between two method calls.
use sh_mcp_go.Prelude.{
  ok, ℕ, suc, ◌+◌, ◌%◌, ◌^◌, String, ◌≡◌, ◌⊎◌, refl, ap, Bool, List, [], ◌∷◌, ◌++◌, arith, length,
  length-append, ◌∙◌,
}
use sh_mcp_go.Deployment.Status.{
  Status, planning, validating, deploying, upgrading, uninstalled, other,
}
use sh_mcp_go.Deployment.Chart.{ChartReference}
use sh_mcp_go.Deployment.Values.{Values}
use sh_mcp_go.Deployment.Events.{Moment}
use sh_mcp_go.Deployment.Entity.{HistoryEntry, Deployment, history_entry, initial, new}
use sh_mcp_go.Deployment.Creation.{new-ok_iff}
use sh_mcp_go.Deployment.Lifecycle.{
  Command, start_deployment, mark_succeeded, mark_failed, start_upgrade, start_rollback,
  mark_rolled_back, set_label, set_annotation, Call, command, drain, step, run,
}

-- The entries are numbered from `n` on, and each was made out of a state of progress.
abbrev pub Numbered : ℕ → List HistoryEntry → Type 0
Numbered n [] = Unit
Numbered n (e ∷ es) =
    (e.version ≡ n % 2 ^ 64)
    × ((e.status ≡ deploying) ⊎ (e.status ≡ upgrading))
    × Numbered (suc n) es

-- The states that the methods reach.
abbrev pub IsReached : Status → Type 0
IsReached planning = ⊥
IsReached validating = ⊥
IsReached uninstalled = ⊥
IsReached (other _) = ⊥
IsReached _ = Unit

pub record IsConsistent (d : Deployment) : Type 0 where
  pub counted : d.version ≡ (1 + length d.history) % 2 ^ 64
  pub numbered : Numbered 1 d.history
  pub reached : IsReached d.status

Numbered-snoc :
    (n : ℕ) (es : List HistoryEntry) (e : HistoryEntry)
    → Numbered n es
    → e.version ≡ (n + length es) % 2 ^ 64
    → (e.status ≡ deploying) ⊎ (e.status ≡ upgrading)
    → Numbered n (es ++ e ∷ [])
Numbered-snoc n [] e h v s = (omega arith, s, tt)
Numbered-snoc n (f ∷ es) e h v s = (h.0, h.1, Numbered-snoc (suc n) es e h.2 (omega arith) s)

-- What names the aggregate.
abbrev pub identity : Deployment → String × String × String × ℕ
identity d = (d.id, d.name, d.namespace, d.created_at)

pub initial-IsConsistent :
    (m : Moment) (id name ns : String) (chart : ChartReference) (values : Values)
    → IsConsistent (initial m id name ns chart values)
unfolding initial
initial-IsConsistent m id name ns chart values = record {
  counted = refl;
  numbered = tt;
  reached = tt;
}

identity-initial :
    (m : Moment) (id name ns : String) (chart : ChartReference) (values : Values)
    → identity (initial m id name ns chart values) ≡ (id, name, ns, m.updated_at)
unfolding initial
identity-initial m id name ns chart values = refl

step-IsConsistent :
    (m : Moment) (c : Command) (d : Deployment) → IsConsistent d → IsConsistent (step m c d).0
unfolding step
step-IsConsistent m start_deployment d h = ground arith
step-IsConsistent m (mark_succeeded rev) d h = ground (
  arith,
  Numbered-snoc 1 d.history (history_entry m rev d) h.numbered,
  length-append d.history (history_entry m rev d ∷ []),
)
step-IsConsistent m (mark_failed reason) d h = ground arith
step-IsConsistent m (start_upgrade chart values) d h = ground arith
step-IsConsistent m (start_rollback to) d h = ground arith
step-IsConsistent m (mark_rolled_back to) d h = ground arith
step-IsConsistent m (set_label key val) d h = ground arith
step-IsConsistent m (set_annotation key val) d h = ground arith

step-identity : (m : Moment) (c : Command) (d : Deployment) → identity (step m c d).0 ≡ identity d
unfolding step
step-identity m start_deployment d = ground arith
step-identity m (mark_succeeded rev) d = ground arith
step-identity m (mark_failed reason) d = refl
step-identity m (start_upgrade chart values) d = ground arith
step-identity m (start_rollback to) d = ground arith
step-identity m (mark_rolled_back to) d = refl
step-identity m (set_label key val) d = refl
step-identity m (set_annotation key val) d = refl

run_keeps :
    (calls : List Call) (d : Deployment)
    → IsConsistent d
    → IsConsistent (run calls d).0 × (identity (run calls d).0 ≡ identity d)
unfolding run
run_keeps [] d h = (h, refl)
run_keeps (command m c ∷ calls) d h =
    let (kept, same) = run_keeps calls (step m c d).0 (step-IsConsistent m c d h) in
    (kept, same ∙ step-identity m c d)
run_keeps (drain ∷ calls) d h =
    run_keeps calls (record d { events = [] })
      (record { counted = h.counted; numbered = h.numbered; reached = h.reached })

-- Whatever the calls on an aggregate that `New` made, it keeps its id, its names and its time of
-- creation, its version is one more than the number of its history entries (as an `int` counts), the
-- entries are numbered in order from 1 and each was made from DEPLOYING or UPGRADING, and it is never
-- in PLANNING, VALIDATING, UNINSTALLED or an undeclared state.
pub run-IsConsistent :
    (is_semver : String → Bool) (m : Moment) (id name ns : String) (chart : ChartReference)
    (values : Values) (calls : List Call) (d : Deployment)
    → new is_semver m id name ns chart values ≡ ok d
    → IsConsistent (run calls d).0 × (identity (run calls d).0 ≡ (id, name, ns, m.updated_at))
run-IsConsistent is_semver m id name ns chart values calls d made =
    let e = (new-ok_iff is_semver m id name ns chart values d).0 made in
    let (kept, same) =
      run_keeps calls d (rw e.0 (initial-IsConsistent m id name ns chart values)) in
    (kept, same ∙ (ap identity e.0 ∙ identity-initial m id name ns chart values))
