-- ===== src/Plan/Progress.antt =====
-- Progress of the plans of internal/domain/plan/entity.go: when some step is ready to run.
use sh_mcp_go.Prelude.{String, ◌≡◌, ◌⊎◌, inl, inr, refl, sym, ap, ◌∙◌, true, List, [], ◌∷◌, All}
use mathlib.Core.List.{Memᴰ}
use mathlib.Core.List.Memᴰ
use sh_mcp_go.Plan.Steps.{Step, pending, is_done}
use sh_mcp_go.Plan.Entity.{Plan, is_completed, ready_steps}
use sh_mcp_go.Plan.Ready.{IsMet, is_completed_of_mem, is_completed-IsMet, mem-ready_steps}

-- Each step depends only on ids in `seen` and on those of the steps before it.
abbrev pub IsOrdered : (seen : List String) → List Step → Type 0
IsOrdered seen [] = Unit
IsOrdered seen (s ∷ steps) = All (λ dep. Memᴰ dep seen) s.depends_on × IsOrdered (s.id ∷ seen) steps

-- No step is running, has failed or has an undeclared status.
abbrev pub IsSettled : List Step → Type 0
IsSettled steps = All (λ s. (s.status ≡ pending) ⊎ (is_done s.status ≡ true)) steps

All-IsMet :
    (steps : List Step) (seen deps : List String)
    → ((dep : String) → Memᴰ dep seen → is_completed steps dep ≡ true)
    → All (λ dep. Memᴰ dep seen) deps
    → All (IsMet steps) deps
All-IsMet steps seen [] done h = tt
All-IsMet steps seen (dep ∷ deps) done h =
    (is_completed-IsMet steps dep (done dep h.0), All-IsMet steps seen deps done h.1)

pending-not_done : (s r : Step) → s ≡ r → s.status ≡ pending → is_done r.status ≡ true → ⊥
pending-not_done s r same waits finished =
    cc (sym (ap (λ x. is_done x.status) same ∙ finished) ∙ ap is_done waits)

mem-rest :
    (s r : Step) (rest : List Step)
    → Memᴰ s (r ∷ rest)
    → s.status ≡ pending
    → is_done r.status ≡ true
    → Memᴰ s rest
mem-rest s r rest m waits finished = elim (Memᴰ.cases_cons m) [
  | inl same ↦ absurd (pending-not_done s r same waits finished)
  | inr more ↦ more
]

module _ (p : Plan) where
  first_ready :
      (rest : List Step) (seen : List String)
      → ((dep : String) → Memᴰ dep seen → is_completed p.steps dep ≡ true)
      → ((s : Step) → Memᴰ s rest → Memᴰ s p.steps)
      → IsOrdered seen rest
      → IsSettled rest
      → (s : Step) → Memᴰ s rest
      → s.status ≡ pending
      → (t : Step) × Memᴰ t (ready_steps p)
  first_ready [] seen done listed ordered settled s m waits = elim m [ ]
  first_ready (r ∷ rest) seen done listed ordered settled s m waits = elim settled.0 [
    | inl idle ↦ (
      r,
      (mem-ready_steps p r).1
          (listed r (Memᴰ.head refl), idle, All-IsMet p.steps seen r.depends_on done ordered.0),
    )
    | inr finished ↦
        let done' : (dep : String) → Memᴰ dep (r.id ∷ seen) → is_completed p.steps dep ≡ true =
          λ dep k. elim (Memᴰ.cases_cons k) [
            | inl same ↦
                is_completed_of_mem r dep p.steps (listed r (Memᴰ.head refl)) (sym same) finished
            | inr more ↦ done dep more
          ] in
        first_ready rest (r.id ∷ seen) done' (λ x k. listed x (Memᴰ.tail k)) ordered.1 settled.1 s
          (mem-rest s r rest m waits finished) waits
  ]

  -- Where each step of a plan depends only on steps before it, no step is running or has failed, and
  -- some step is pending, some step is ready: the plan is never stuck.
  pub ready_steps_progress :
      IsOrdered [] p.steps
      → IsSettled p.steps
      → (s : Step) → Memᴰ s p.steps
      → s.status ≡ pending
      → (t : Step) × Memᴰ t (ready_steps p)
  ready_steps_progress ordered settled =
      first_ready p.steps [] (λ dep m. elim m [ ]) (λ x m. m) ordered settled
