-- ===== src/Server.antt =====
-- internal/infrastructure/server/http.go with pkg/logger and pkg/version: what the handlers of the HTTP
-- server write, the ids of a request, and how serving ends.
use sh_mcp_go.Prelude.{
  ℕ, String, Option, none, some, List, [], ◌∷◌, ◌++◌, concat, if◌then◌else◌, ◌==◌,
}

-- pkg/version: `Info`.
pub record VersionInfo : Type 0 where
  pub version : String
  pub commit : String
  pub build_date : String
  pub go_version : String
  pub os : String
  pub arch : String

-- `String`.
unfoldable pub info_string : VersionInfo → String
info_string i = concat (
    "sh-mcp-go " ∷ i.version ∷ " (commit=" ∷ i.commit ∷ ", built=" ∷ i.build_date ∷ ", " ∷ i.os
    ∷ "/" ∷ i.arch ∷ ", " ∷ i.go_version ∷ ")" ∷ [])

-- A call on a `ResponseWriter`; the body is encoded as JSON.
pub data Write : Type 0 where
  set_header : (name value : String) → Write
  write_header : (code : ℕ) → Write
  encode_status : (status : String) → Write
  encode_version : VersionInfo → Write

abbrev pub status_ok : ℕ
status_ok = 200

abbrev pub reports_status : (status : String) → List Write
reports_status status =
    set_header "Content-Type" "application/json"
    ∷ write_header status_ok
    ∷ encode_status status
    ∷ []

-- `healthz`, `readyz` and `livez`.
unfoldable pub healthz : List Write
healthz = reports_status "ok"

unfoldable pub readyz : List Write
readyz = reports_status "ready"

unfoldable pub livez : List Write
livez = reports_status "alive"

-- `versionHandler`.
unfoldable pub version_handler : VersionInfo → List Write
version_handler info = set_header "Content-Type" "application/json" ∷ encode_version info ∷ []

-- The routes of `NewHTTPServer`, besides /metrics, with what their handlers write.
unfoldable pub routes : VersionInfo → List (String × List Write)
unfolding healthz readyz livez version_handler
routes info =
    ("/healthz", healthz)
    ∷ ("/readyz", readyz)
    ∷ ("/livez", livez)
    ∷ ("/version", version_handler info)
    ∷ []

-- pkg/logger: the ids that a context carries. All that reads them takes one that is not there for an
-- empty one.
pub record ContextIds : Type 0 where
  pub correlation_id : String
  pub request_id : String
  pub trace_id : String

-- `WithCorrelationID`, `WithRequestID` and `WithTraceID`.
unfoldable pub with_correlation_id : (id : String) → ContextIds → ContextIds
with_correlation_id id c = record c { correlation_id = id }

unfoldable pub with_request_id : (id : String) → ContextIds → ContextIds
with_request_id id c = record c { request_id = id }

unfoldable pub with_trace_id : (id : String) → ContextIds → ContextIds
with_trace_id id c = record c { trace_id = id }

abbrev pub attribute : (name value : String) → List (String × String)
attribute name value = if value == "" then [] else (name, value) ∷ []

-- The attributes that `FromContext` adds to a logger.
unfoldable pub attributes : ContextIds → List (String × String)
attributes c =
    attribute "correlation_id" (c.correlation_id)
    ++ (attribute "request_id" (c.request_id) ++ attribute "trace_id" (c.trace_id))

abbrev pub or_new : (header fresh : String) → String
or_new header fresh = if header == "" then fresh else header

-- `correlationIDMiddleware`. `header` reads the request's header; the others are the ids that uuid makes
-- where they are called for. The writes of `next` come after those of the middleware.
unfoldable pub correlation_id_middleware :
    (header : String → String)
    → (fresh_correlation fresh_request : String) → (next : ContextIds → List Write) → ContextIds
    → List Write
unfolding with_correlation_id with_request_id
correlation_id_middleware header fresh_correlation fresh_request next c =
    let cid = or_new (header "X-Correlation-ID") fresh_correlation in
    let rid = or_new (header "X-Request-ID") fresh_request in
    set_header "X-Correlation-ID" cid
    ∷ set_header "X-Request-ID" rid
    ∷ next (with_request_id rid (with_correlation_id cid c))

-- What `Start` receives first: the context is done, or `ListenAndServe` has ended. An answer of it other
-- than `ErrServerClosed` is sent; then the channel is closed.
pub data ServerEvent (E : Type 0) : Type 0 where
  context_done : ServerEvent E
  listen_failed : E → ServerEvent E
  server_closed : ServerEvent E

-- `Start`, with what `Shutdown` answers; `none` is nil.
unfoldable pub start : {E : Type 0} → (shut_down : Option E) → ServerEvent E → Option E
start shut_down context_done = shut_down
start shut_down (listen_failed e) = some e
start shut_down server_closed = none
