-- ===== src/Application/Ports.antt =====
-- The ports that internal/application/deployment/service.go calls. An answer may depend on the calls
-- made before; these stand in a list, the last first.
use sh_mcp_go.Prelude.{ℕ, String, Bool, Option, none, some, List, ◌∷◌, Result, ok, err}
use sh_mcp_go.Deployment.Errors.{Error, wrapped}
use sh_mcp_go.Deployment.Events.{Event}
use sh_mcp_go.Deployment.Entity.{Deployment, Outcome}
use sh_mcp_go.Application.Commands.{
  HelmInstallRequest, HelmUpgradeRequest, HelmRollbackRequest, HelmUninstallRequest,
}

pub data Call : Type 0 where
  ensure_namespace : (name : String) → Call
  save : Deployment → Call
  find : (release_name namespace : String) → Call
  delete : (id : String) → Call
  install : HelmInstallRequest → Call
  upgrade : HelmUpgradeRequest → Call
  rollback : HelmRollbackRequest → Call
  uninstall : HelmUninstallRequest → Call
  publish : List Event → Call

-- What the service reads of Helm's release; `notes` is `none` where its `Info` is nil.
pub record Release : Type 0 where
  pub name : String
  pub namespace : String
  pub version : ℕ
  pub notes : Option String

-- `has_publisher` is false where the service has no publisher.
pub record Ports : Type 0 where
  pub ensure_namespace : List Call → (name : String) → Option Error
  pub save : List Call → Deployment → Option Error
  pub find : List Call → (release_name namespace : String) → Result Error Deployment
  pub install : List Call → HelmInstallRequest → Result Error Release
  pub upgrade : List Call → HelmUpgradeRequest → Result Error Release
  pub rollback : List Call → HelmRollbackRequest → Option Error
  pub uninstall : List Call → HelmUninstallRequest → Option Error
  pub delete : List Call → (id : String) → Option Error
  pub publish : List Call → List Event → Option Error
  pub has_publisher : Bool
  pub error_text : Error → String

-- The calls so far, and what a method returns.
abbrev pub Run : Type 0 → Type 0
Run A = List Call × Result Error A

-- A call that may fail, by its answer: what follows an error, and what follows its success.
unfoldable pub attempt :
    {A : Type 0}
    → (answer : Option Error) → Call
    → (failed : Error → List Call → Run A) → List Call
    → (next : List Call → Run A) → Run A
attempt none c failed h next = next (c ∷ h)
attempt (some e) c failed h next = failed e (c ∷ h)

-- The same for a call that answers with a value.
unfoldable pub attempt_value :
    {V A : Type 0}
    → (answer : Result Error V) → Call
    → (failed : Error → List Call → Run A) → List Call
    → (next : V → List Call → Run A) → Run A
attempt_value (ok v) c failed h next = next v (c ∷ h)
attempt_value (err e) c failed h next = failed e (c ∷ h)

-- A call whose error is dropped.
abbrev pub dropped : (answer : Option Error) → Call → List Call → List Call
dropped answer c h = c ∷ h

-- `return err`, with the error as it is or wrapped.
abbrev pub return_error : {A : Type 0} → Error → List Call → Run A
return_error e h = (h, err e)

abbrev pub return_wrapped : {A : Type 0} → (what : String) → Error → List Call → Run A
return_wrapped what e h = (h, err (wrapped what e))

-- A method of the aggregate that may fail: its error is returned at once.
unfoldable pub transition : {A : Type 0} → Outcome → List Call → (next : Deployment → Run A) → Run A
transition (d, none) h next = next d
transition (d, some e) h next = (h, err e)
