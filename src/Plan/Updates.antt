-- ===== src/Plan/Updates.antt =====
-- What `UpdateStepStatus` of internal/domain/plan/entity.go changes.
use sh_mcp_go.Prelude.{
  ℕ, String, ◌≡◌, ◌≢◌, ◌⊎◌, inl, inr, refl, sym, ap, ◌∙◌, false, Option, none, some, List, [], ◌∷◌,
  ◌++◌, All, ◌==◌, eq_iff, Bool-cases,
}
use sh_mcp_go.Plan.Steps.{Step, StepStatus, pending, running, succeeded, skipped}
use sh_mcp_go.Plan.Entity.{Plan, step_not_found, stamp, touch, update_first, update_step_status}

-- The steps fall into those before the first with the id, that one, and the rest.
pub record IsFirst (step_id : String) (steps before : List Step) (s : Step) (after : List Step)
    : Type 0 where
  pub split : steps ≡ before ++ s ∷ after
  pub others : All (λ t. t.id ≢ step_id) before
  pub named : s.id ≡ step_id

-- A step starts where it gets RUNNING, and ends where it gets SUCCEEDED, FAILED or SKIPPED.
abbrev pub start_time : (now : ℕ) → StepStatus → (old : Option ℕ) → Option ℕ
start_time now running old = some now
start_time now _ old = old

abbrev pub end_time : (now : ℕ) → StepStatus → (old : Option ℕ) → Option ℕ
end_time now succeeded old = some now
end_time now StepStatus.failed old = some now
end_time now skipped old = some now
end_time now _ old = old

-- The step with the status, the error text and the times of the update.
abbrev pub updated : (now : ℕ) → StepStatus → (err_msg : String) → Step → Step
updated now status err_msg s = record s {
  status = status;
  error = err_msg;
  started_at = start_time now status (s.started_at);
  completed_at = end_time now status (s.completed_at);
}

touch-updated :
    (now : ℕ) (status : StepStatus) (err_msg : String) (s : Step)
    → touch now status err_msg s ≡ updated now status err_msg s
unfolding touch stamp
touch-updated now pending err_msg s = refl
touch-updated now running err_msg s = refl
touch-updated now succeeded err_msg s = refl
touch-updated now StepStatus.failed err_msg s = refl
touch-updated now skipped err_msg s = refl
touch-updated now (StepStatus.other text) err_msg s = refl

module _ (now : ℕ) (step_id : String) (status : StepStatus) (err_msg : String) where
  abbrev Split : List Step → Type 0
  Split steps =
      (before : List Step) × (s : Step) × (after : List Step) × IsFirst step_id steps before s after
      × (update_first now step_id status err_msg steps
          ≡ some (before ++ touch now status err_msg s ∷ after))

  abbrev Absent : List Step → Type 0
  Absent steps =
      All (λ t. t.id ≢ step_id) steps × (update_first now step_id status err_msg steps ≡ none)

  Split-cons :
      (s : Step) (steps : List Step) → (s.id == step_id) ≡ false → Split steps → Split (s ∷ steps)
  unfolding update_first
  Split-cons s steps other (before, t, after, first, e) = (
    s ∷ before,
    t,
    after,
    record {
      split = ap (λ l. s ∷ l) first.split;
      others = (λ same. cc (sym other ∙ (eq_iff s.id step_id).1 same), first.others);
      named = first.named;
    },
    rw (other, e),
  )

  update_first_cases : (steps : List Step) → Split steps ⊎ Absent steps
  unfolding update_first
  update_first_cases [] = inr (tt, refl)
  update_first_cases (s ∷ steps) = elim (Bool-cases (s.id == step_id)) [
    | inl here ↦ inl (
      [],
      s,
      steps,
      record { split = refl; others = tt; named = (eq_iff s.id step_id).0 here },
      rw here,
    )
    | inr other ↦ elim (update_first_cases steps) [
      | inl split ↦ inl (Split-cons s steps other split)
      | inr (absent, e) ↦
          inr (((λ same. cc (sym other ∙ (eq_iff s.id step_id).1 same)), absent), rw (other, e))
    ]
  ]

  -- The method gives the first step that has the id the status and the error text, RUNNING also the
  -- time of its start, and SUCCEEDED, FAILED and SKIPPED that of its end; it sets the plan's time of
  -- update, and changes nothing else. Where no step has the id it returns an error that
  -- names the id and leaves the plan as it was.
  pub update_step_status_lem :
      (p : Plan)
      → ((before : List Step) × (s : Step) × (after : List Step) × IsFirst step_id p.steps before s
            after
          × (update_step_status now step_id status err_msg p ≡ (
            record p { steps = before ++ updated now status err_msg s ∷ after; updated_at = now },
            none,
          )))
        ⊎ (All (λ t. t.id ≢ step_id) p.steps
            × (update_step_status now step_id status err_msg p
                ≡ (p, some (step_not_found step_id))))
  unfolding update_step_status
  update_step_status_lem p = elim (update_first_cases p.steps) [
    | inl (before, s, after, first, e) ↦
        inl
          (before, s, after, first, rw (e, update_step_status, touch-updated now status err_msg s))
    | inr (absent, e) ↦ inr (absent, rw (e, update_step_status))
  ]
