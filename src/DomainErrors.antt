-- ===== src/DomainErrors.antt =====
-- pkg/errors/errors.go: domain errors and their codes.
use sh_mcp_go.Prelude.{String, ◌≡◌, refl, ◌∙◌, Bool, true, false, List, [], ◌∷◌, Any, if◌then◌else◌}

-- The sentinel values.
pub data Sentinel : Type 0 where
  not_found already_exists invalid_input conflict timeout unauthorized forbidden : Sentinel
  internal_server unavailable validation_failed deployment_failed rollback_failed : Sentinel
  upgrade_failed health_check_failed : Sentinel

-- An error: nil, a sentinel, a `*DomainError` with its code, its message and its cause, or another error
-- that wraps nothing. `fields` are those of `WithFields`.
pub data GoError : Type 0 where
  nil : GoError
  sentinel : Sentinel → GoError
  domain : (code message : String) → (cause : GoError) → (fields : List (String × Any)) → GoError
  plain : (text : String) → GoError

abbrev pub same_sentinel : Sentinel → Sentinel → Bool
same_sentinel not_found not_found = true
same_sentinel already_exists already_exists = true
same_sentinel invalid_input invalid_input = true
same_sentinel conflict conflict = true
same_sentinel timeout timeout = true
same_sentinel unauthorized unauthorized = true
same_sentinel forbidden forbidden = true
same_sentinel internal_server internal_server = true
same_sentinel unavailable unavailable = true
same_sentinel validation_failed validation_failed = true
same_sentinel deployment_failed deployment_failed = true
same_sentinel rollback_failed rollback_failed = true
same_sentinel upgrade_failed upgrade_failed = true
same_sentinel health_check_failed health_check_failed = true
same_sentinel _ _ = false

-- `errors.Is` for a sentinel, which follows `Unwrap`.
unfoldable pub is : GoError → Sentinel → Bool
is (sentinel s) target = same_sentinel s target
is nil target = false
is (domain code message cause fields) target = is cause target
is (plain text) target = false

-- `codeFor`.
unfoldable pub code_for : GoError → String
unfolding is
code_for e =
    if is e not_found
    then "NOT_FOUND"
    else if is e already_exists
    then "ALREADY_EXISTS"
    else if is e invalid_input
    then "INVALID_INPUT"
    else if is e conflict
    then "CONFLICT"
    else if is e timeout
    then "TIMEOUT"
    else if is e unauthorized
    then "UNAUTHORIZED"
    else if is e forbidden
    then "FORBIDDEN"
    else if is e validation_failed
    then "VALIDATION_FAILED"
    else if is e deployment_failed
    then "DEPLOYMENT_FAILED"
    else if is e rollback_failed
    then "ROLLBACK_FAILED"
    else if is e upgrade_failed
    then "UPGRADE_FAILED"
    else if is e health_check_failed
    then "HEALTH_CHECK_FAILED"
    else "INTERNAL"

-- `New`; `message` is the formatted one.
unfoldable pub new : (cause : GoError) → (message : String) → GoError
unfolding code_for
new cause message = domain (code_for cause) message cause []

-- `Wrap`.
unfoldable pub wrap : (cause : GoError) → (message : String) → GoError
wrap cause message = domain "WRAPPED" message cause []

-- `WithFields`, of a domain error.
unfoldable pub with_fields : GoError → List (String × Any) → GoError
with_fields (domain code message cause old) fields = domain code message cause fields
with_fields e fields = e

-- How an error is built from a first one.
pub data Layer : Type 0 where
  new_layer wrap_layer : (message : String) → Layer
  fields_layer : List (String × Any) → Layer

unfoldable pub build : List Layer → GoError → GoError
unfolding new wrap with_fields
build [] e = e
build (new_layer message ∷ layers) e = new (build layers e) message
build (wrap_layer message ∷ layers) e = wrap (build layers e) message
build (fields_layer fields ∷ layers) e = with_fields (build layers e) fields

is-with_fields :
    (e : GoError) (fields : List (String × Any)) (t : Sentinel)
    → is (with_fields e fields) t ≡ is e t
unfolding is with_fields
is-with_fields (sentinel s) fields t = refl
is-with_fields nil fields t = refl
is-with_fields (domain code message cause old) fields t = refl
is-with_fields (plain text) fields t = refl

-- However often an error is wrapped by `New`, `Wrap` and `WithFields`, it is the same sentinels.
pub is-build : (layers : List Layer) (e : GoError) (t : Sentinel) → is (build layers e) t ≡ is e t
unfolding is build new wrap
is-build [] e t = refl
is-build (new_layer message ∷ layers) e t = is-build layers e t
is-build (wrap_layer message ∷ layers) e t = is-build layers e t
is-build (fields_layer fields ∷ layers) e t =
    is-with_fields (build layers e) fields t ∙ is-build layers e t

-- The code of each sentinel.
abbrev pub code_of : Sentinel → String
code_of not_found = "NOT_FOUND"
code_of already_exists = "ALREADY_EXISTS"
code_of invalid_input = "INVALID_INPUT"
code_of conflict = "CONFLICT"
code_of timeout = "TIMEOUT"
code_of unauthorized = "UNAUTHORIZED"
code_of forbidden = "FORBIDDEN"
code_of internal_server = "INTERNAL"
code_of unavailable = "INTERNAL"
code_of validation_failed = "VALIDATION_FAILED"
code_of deployment_failed = "DEPLOYMENT_FAILED"
code_of rollback_failed = "ROLLBACK_FAILED"
code_of upgrade_failed = "UPGRADE_FAILED"
code_of health_check_failed = "HEALTH_CHECK_FAILED"

code_for-sentinel : (s : Sentinel) → code_for (sentinel s) ≡ code_of s
unfolding code_for is
code_for-sentinel not_found = refl
code_for-sentinel already_exists = refl
code_for-sentinel invalid_input = refl
code_for-sentinel conflict = refl
code_for-sentinel timeout = refl
code_for-sentinel unauthorized = refl
code_for-sentinel forbidden = refl
code_for-sentinel internal_server = refl
code_for-sentinel unavailable = refl
code_for-sentinel validation_failed = refl
code_for-sentinel deployment_failed = refl
code_for-sentinel rollback_failed = refl
code_for-sentinel upgrade_failed = refl
code_for-sentinel health_check_failed = refl

code_for-build : (layers : List Layer) (e : GoError) → code_for (build layers e) ≡ code_for e
unfolding code_for
code_for-build layers e =
    let same = is-build layers e in
    rw (
      same not_found,
      same already_exists,
      same invalid_input,
      same conflict,
      same timeout,
      same unauthorized,
      same forbidden,
      same validation_failed,
      same deployment_failed,
      same rollback_failed,
      same upgrade_failed,
      same health_check_failed,
    )

-- However often a sentinel is wrapped by `New`, `Wrap` and `WithFields`, a further `New` makes a domain
-- error with the sentinel's own code, the message and the wrapped error: NOT_FOUND for ErrNotFound, and
-- so on, but INTERNAL for ErrInternalServer and ErrUnavailable.
pub new-build :
    (layers : List Layer) (s : Sentinel) (message : String)
    → new (build layers (sentinel s)) message
      ≡ domain (code_of s) message (build layers (sentinel s)) []
unfolding new
new-build layers s message = rw (code_for-build layers (sentinel s), code_for-sentinel s)
