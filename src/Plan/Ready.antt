-- ===== src/Plan/Ready.antt =====
-- Which steps of a plan of internal/domain/plan/entity.go are ready to run.
use sh_mcp_go.Prelude.{
  String, ◌≡◌, ◌↔◌, inl, inr, refl, sym, ap, ◌∙◌, Bool, true, false, ◌&&◌, List, [], ◌∷◌, arith,
  All, ◌==◌, eq_iff, &&_parts, &&_intro, ||_cases, ||_left, ||_right, if◌then◌else◌, subst,
}
use mathlib.Core.List.{Memᴰ, Sublist}
use mathlib.Core.List.Memᴰ
use mathlib.Core.List.Sublist
use sh_mcp_go.Plan.Steps.{Step, pending, is_pending, is_done}
use sh_mcp_go.Plan.Entity.{Plan, is_completed, all_completed, ready_from, ready_steps}

-- A step of the list has the id and has succeeded or was skipped.
pub record IsMet (steps : List Step) (dep : String) : Type 0 where
  pub step : Step
  pub listed : Memᴰ step steps
  pub named : step.id ≡ dep
  pub finished : is_done step.status ≡ true

pub is_completed-IsMet :
    (steps : List Step) (dep : String) → is_completed steps dep ≡ true → IsMet steps dep
unfolding is_completed
is_completed-IsMet [] dep h = cc
is_completed-IsMet (s ∷ steps) dep h =
    elim (||_cases (is_done s.status && s.id == dep) (is_completed steps dep) h) [
      | inl here ↦
          let (finished, named) = &&_parts (is_done s.status) (s.id == dep) here in
          record {
            step = s;
            listed = Memᴰ.head refl;
            named = (eq_iff s.id dep).0 named;
            finished = finished;
          }
      | inr more ↦
          let later = is_completed-IsMet steps dep more in
          record {
            step = later.step;
            listed = Memᴰ.tail later.listed;
            named = later.named;
            finished = later.finished;
          }
    ]

pub is_completed_of_mem :
    (t : Step) (dep : String) (steps : List Step)
    → Memᴰ t steps
    → t.id ≡ dep
    → is_done t.status ≡ true
    → is_completed steps dep ≡ true
unfolding is_completed
is_completed_of_mem t dep [] m n h = elim m [ ]
is_completed_of_mem t dep (s ∷ steps) (Memᴰ.head e) n h = ||_left _ _ (
    &&_intro (is_done s.status) (s.id == dep) (subst (λ x. is_done x.status ≡ true) e h)
      ((eq_iff s.id dep).1 (subst (λ x. x.id ≡ dep) e n)))
is_completed_of_mem t dep (s ∷ steps) (Memᴰ.tail m) n h =
    ||_right _ _ (is_completed_of_mem t dep steps m n h)

IsMet-is_completed :
    (steps : List Step) (dep : String) → IsMet steps dep → is_completed steps dep ≡ true
IsMet-is_completed steps dep met =
    is_completed_of_mem met.step dep steps met.listed met.named met.finished

pub all_completed_iff :
    (steps : List Step) (deps : List String)
    → (all_completed (is_completed steps) deps ≡ true) ↔ All (IsMet steps) deps
unfolding all_completed
all_completed_iff steps [] = (λ _. tt, λ _. refl)
all_completed_iff steps (dep ∷ deps) = (
  λ h.
      let (first, more) = &&_parts (is_completed steps dep) _ h in
      (is_completed-IsMet steps dep first, (all_completed_iff steps deps).0 more),
  λ met.
      &&_intro (is_completed steps dep) _ (IsMet-is_completed steps dep met.0)
        ((all_completed_iff steps deps).1 met.1),
)

is_pending_iff : (s : Step) → (is_pending s.status ≡ true) ↔ (s.status ≡ pending)
is_pending_iff s = (λ h. ground arith, λ h. ground arith)

abbrev passes : (String → Bool) → Step → Bool
passes done s = is_pending s.status && all_completed done s.depends_on

mem-kept :
    (p : Step → Bool) (s t : Step) (kept steps : List Step) (b : Bool)
    → p t ≡ b
    → Memᴰ s kept ↔ (Memᴰ s steps × (p s ≡ true))
    → Memᴰ s (if b then t ∷ kept else kept) ↔ (Memᴰ s (t ∷ steps) × (p s ≡ true))
mem-kept p s t kept steps true e ih = (
  λ m. elim (Memᴰ.cases_cons m) [
    | inl same ↦ (Memᴰ.head same, ap p same ∙ e)
    | inr more ↦ (Memᴰ.tail (ih.0 more).0, (ih.0 more).1)
  ],
  λ (m, h). elim (Memᴰ.cases_cons m) [
    | inl same ↦ Memᴰ.head same
    | inr more ↦ Memᴰ.tail (ih.1 (more, h))
  ],
)
mem-kept p s t kept steps false e ih = (
  λ m. (Memᴰ.tail (ih.0 m).0, (ih.0 m).1),
  λ (m, h). elim (Memᴰ.cases_cons m) [
    | inl same ↦ cc (sym h ∙ ap p same ∙ e)
    | inr more ↦ ih.1 (more, h)
  ],
)

-- The second loop keeps the steps that pass, in order.
mem-ready_from :
    (done : String → Bool) (s : Step) (steps : List Step)
    → Memᴰ s (ready_from done steps) ↔ (Memᴰ s steps × (passes done s ≡ true))
unfolding ready_from
mem-ready_from done s [] = (λ m. elim m [ ], λ m. elim m.0 [ ])
mem-ready_from done s (t ∷ steps) =
    mem-kept (passes done) s t (ready_from done steps) steps (passes done t) refl
      (mem-ready_from done s steps)

-- A step is among the ready ones exactly when it is a step of the plan, it is pending, and each id
-- that it depends on is that of a step of the plan that has succeeded or was skipped.
pub mem-ready_steps :
    (p : Plan) (s : Step)
    → Memᴰ s (ready_steps p)
      ↔ (Memᴰ s p.steps × (s.status ≡ pending) × All (IsMet p.steps) s.depends_on)
unfolding ready_steps
mem-ready_steps p s =
    let listed = mem-ready_from (is_completed p.steps) s p.steps in
    let deps = all_completed_iff p.steps s.depends_on in
    let waits = is_pending_iff s in
    (
      λ m.
          let (member, pass) = listed.0 m in
          let (idle, met) = &&_parts (is_pending s.status) _ pass in
          (member, waits.0 idle, deps.0 met),
      λ (member, idle, met).
          listed.1 (member, &&_intro (is_pending s.status) _ (waits.1 idle) (deps.1 met)),
    )

kept-sublist :
    {t : Step} {kept steps : List Step} (b : Bool)
    → Sublist kept steps
    → Sublist (if b then t ∷ kept else kept) (t ∷ steps)
kept-sublist {t = t} true h = Sublist.cons-cons t h
kept-sublist {t = t} false h = Sublist.cons t h

ready_from-sublist :
    (done : String → Bool) (steps : List Step) → Sublist (ready_from done steps) steps
unfolding ready_from
ready_from-sublist done [] = Sublist.refl []
ready_from-sublist done (t ∷ steps) = kept-sublist (passes done t) (ready_from-sublist done steps)

-- The ready steps stand in the order of the plan, and none twice for one step.
pub ready_steps-sublist : (p : Plan) → Sublist (ready_steps p) p.steps
unfolding ready_steps
ready_steps-sublist p = ready_from-sublist (is_completed p.steps) p.steps
