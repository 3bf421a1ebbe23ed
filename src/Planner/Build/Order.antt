-- ===== src/Planner/Build/Order.antt =====
-- The order of the steps that internal/application/planner/service.go builds.
use sh_mcp_go.Prelude.{
  ℕ, suc, String, ◌≡◌, refl, Bool, true, false, List, [], ◌∷◌, ◌++◌, All, Bool-cases, inl, inr,
  ◌==◌, ok, arith,
}
use mathlib.Core.List.{Memᴰ}
use sh_mcp_go.Plan.Steps.{Step}
use sh_mcp_go.Plan.Progress.{IsOrdered}
use sh_mcp_go.Planner.Intent.{AppIntent, Intent}
use sh_mcp_go.Planner.Build.{
  namespace, validate, storage, install, Outside, optional, install_depends_on, ingress_step,
  health_step, app_steps, apps_steps, namespace_step, build_steps, chart_version,
}

IsOrdered-append :
    (seen : List String) (xs ys : List Step)
    → IsOrdered seen xs
    → ((more : List String) → ((x : String) → Memᴰ x seen → Memᴰ x more) → IsOrdered more ys)
    → IsOrdered seen (xs ++ ys)
IsOrdered-append seen [] ys h k = k seen (λ x m. m)
IsOrdered-append seen (s ∷ xs) ys h k = (
  h.0,
  IsOrdered-append (s.id ∷ seen) xs ys h.1 (λ more sub. k more (λ x m. sub x (Memᴰ.tail m))),
)

IsOrdered-optional :
    (b : Bool) (s : Step) (rest : List Step) (seen : List String)
    → All (λ d. Memᴰ d seen) s.depends_on
    → (b ≡ true → IsOrdered (s.id ∷ seen) rest)
    → (b ≡ false → IsOrdered seen rest)
    → IsOrdered seen (optional b s rest)
IsOrdered-optional true s rest seen deps h k = (deps, h refl)
IsOrdered-optional false s rest seen deps h k = k refl

module _ (o : Outside) where
  open o use {fresh_id}

  install_depends_on-listed :
      (i : ℕ) (app : AppIntent) (seen : List String)
      → Memᴰ (fresh_id (validate i)) seen
      → (app.persistence ≡ true → Memᴰ (fresh_id (storage i)) seen)
      → All (λ d. Memᴰ d seen) (install_depends_on o i app)
  install_depends_on-listed i app seen v st = elim (Bool-cases app.persistence) [
    | inl p ↦ elim (Bool-cases (fresh_id (storage i) == "")) [
      | inl e ↦ rw (p, e) (v, tt)
      | inr e ↦ rw (p, e) (v, (st p, tt))
    ]
    | inr p ↦ rw p (v, tt)
  ]

  app_steps-IsOrdered :
      (i : ℕ) (intent : Intent) (app : AppIntent) (version : String) (seen : List String)
      → Memᴰ (fresh_id namespace) seen
      → IsOrdered seen (app_steps o i intent app version)
  unfolding app_steps
  app_steps-IsOrdered i intent app version seen n = (
    (n, tt),
    IsOrdered-optional app.persistence _ _ (fresh_id (validate i) ∷ seen) (Memᴰ.head refl, tt)
        (λ p. (
          install_depends_on-listed i app _ (Memᴰ.tail (Memᴰ.head refl)) (λ _. Memᴰ.head refl),
          after_install _,
        ))
        (λ p. (install_depends_on-listed i app _ (Memᴰ.head refl) (λ q. cc), after_install _)),
  )
    where
      after_install :
          (more : List String)
          → IsOrdered
              (fresh_id (install i) ∷ more)
              (optional app.ingress (ingress_step o i intent app) (health_step o i intent app ∷ []))
      after_install more =
          IsOrdered-optional app.ingress _ _ (fresh_id (install i) ∷ more) (Memᴰ.head refl, tt)
            (λ _. ((Memᴰ.tail (Memᴰ.head refl), tt), tt)) (λ _. ((Memᴰ.head refl, tt), tt))

  apps_steps-IsOrdered :
      (i : ℕ) (intent : Intent) (apps : List AppIntent) (seen : List String)
      → Memᴰ (fresh_id namespace) seen
      → IsOrdered seen (apps_steps o i intent apps).0
  unfolding apps_steps
  apps_steps-IsOrdered i intent [] seen n = tt
  apps_steps-IsOrdered i intent (app ∷ apps) seen n =
      IsOrdered-append seen (app_steps o i intent app (chart_version o i app).0)
        (apps_steps o (suc i) intent apps).0
        (app_steps-IsOrdered i intent app (chart_version o i app).0 seen n)
        (λ more sub. apps_steps-IsOrdered (suc i) intent apps more (sub _ n))

  namespace_step-IsOrdered :
      (intent : Intent)
      → IsOrdered [] (namespace_step o intent ∷ (apps_steps o 0 intent intent.apps).0)
  unfolding namespace_step
  namespace_step-IsOrdered intent =
      (tt, apps_steps-IsOrdered 0 intent intent.apps (fresh_id namespace ∷ []) (Memᴰ.head refl))

  -- The steps that are built, on both branches that succeed.
  pub build_steps-ok :
      (intent : Intent) {steps : List Step} {warnings : List String}
      → build_steps o intent ≡ ok (steps, warnings)
      → steps ≡ namespace_step o intent ∷ (apps_steps o 0 intent intent.apps).0
  unfolding build_steps
  build_steps-ok intent h = ground arith

  -- In the steps that are built for an intent, each depends only on ids of steps before it.
  pub build_steps-IsOrdered :
      (intent : Intent) {steps : List Step} {warnings : List String}
      → build_steps o intent ≡ ok (steps, warnings)
      → IsOrdered [] steps
  build_steps-IsOrdered intent h = rw (build_steps-ok intent h) (namespace_step-IsOrdered intent)
