-- ===== src/Application/Guards.antt =====
-- What internal/application/deployment/service.go must have done before each of its calls.
use sh_mcp_go.Prelude.{String, ◌≡◌, ◌⊎◌, none, List, [], ◌∷◌, ok}
use sh_mcp_go.Deployment.Status.{Status, deploying, upgrading, rolling_back, failed}
use sh_mcp_go.Deployment.Events.{Event}
use sh_mcp_go.Deployment.Entity.{Deployment}
use sh_mcp_go.Application.Ports.{
  Call, save, find, delete, install, upgrade, rollback, uninstall, publish, Ports,
}
use sh_mcp_go.Application.Rules.{IsIn, IsOf}

-- What `FindByReleaseName` promises: the aggregate that it returns is of the release asked for.
abbrev pub FindsNamed : Ports → Type 0
FindsNamed ports =
    (h : List Call) (name ns : String) (d : Deployment)
    → ports.find h name ns ≡ ok d
    → IsOf name ns d

module _ (ports : Ports) where
  -- The last call was a save that succeeded, of an aggregate of the release, in the state.
  abbrev pub JustSaved : Status → (name ns : String) → List Call → Type 0
  JustSaved s name ns (save d ∷ h) = IsIn s name ns d × (ports.save h d ≡ none)
  JustSaved s name ns _ = ⊥

  -- The last calls were an uninstallation that succeeded, and a search that found the aggregate of
  -- that release, which has the id.
  abbrev pub JustFound : (id : String) → List Call → Type 0
  JustFound id (find name ns ∷ uninstall req ∷ h) =
      (ports.uninstall h req ≡ none)
      × (req.release_name ≡ name)
      × (req.namespace ≡ ns)
      × (d : Deployment) × (ports.find (uninstall req ∷ h) name ns ≡ ok d)
      × (d.id ≡ id)
  JustFound id _ = ⊥

  -- The last call was a save of an aggregate with these events, which succeeded unless the aggregate
  -- is FAILED.
  abbrev pub JustRecorded : List Event → List Call → Type 0
  JustRecorded events (save d ∷ h) =
      (d.events ≡ events) × ((ports.save h d ≡ none) ⊎ (d.status ≡ failed))
  JustRecorded events _ = ⊥

  -- What must have been done before a call.
  abbrev pub Allowed : Call → List Call → Type 0
  Allowed (install req) h = JustSaved deploying req.release_name req.namespace h
  Allowed (upgrade req) h = JustSaved upgrading req.release_name req.namespace h
  Allowed (rollback req) h = JustSaved rolling_back req.release_name req.namespace h
  Allowed (delete id) h = JustFound id h
  Allowed (publish events) h = JustRecorded events h
  Allowed _ h = Unit

  abbrev pub IsGuarded : List Call → Type 0
  IsGuarded [] = Unit
  IsGuarded (c ∷ h) = Allowed c h × IsGuarded h
