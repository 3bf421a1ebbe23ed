-- ===== src/HelmClient/Errors.antt =====
-- The errors that internal/adapters/helm/client.go returns.
use sh_mcp_go.Prelude.{String}

mutual
  pub data Error : Type 0 where
    -- Of the SDK, of another library or of the system.
    external : (text : String) → Error
    -- `fmt.Errorf("<what> %q: %w", subject, cause)`, or without the subject.
    during : (what subject : String) → (cause : Error) → Error
    while : (what : String) → (cause : Error) → Error
    -- An error of the client itself: about a subject, or about two.
    about : (what subject rest : String) → Error
    about_two : (what first between second rest : String) → Error
    plain : (text : String) → Error
    -- `errors.Join`.
    joined : Errors → Error

  pub data Errors : Type 0 where
    one : Error → Errors
    more : Error → Errors → Errors
