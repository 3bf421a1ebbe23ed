-- ===== src/Lib.antt =====
-- The core of sh-mcp-go, a server that installs, upgrades, rolls back and uninstalls Helm charts on a
-- Kubernetes cluster for an AI assistant, and that plans deployments from a text.
--
-- The parts, by their paths in the repository:
--
--   Deployment (internal/domain/deployment): the aggregate `Deployment`. Status, Errors, Naming, Chart,
--     Values and Events hold the value objects, the errors and the domain events; Entity has one function
--     for each function and method of entity.go, under its name. A method that mutates the aggregate is a
--     function that returns the new one, with its error as an `Option`. Lifecycle has the sequences of
--     method calls; its children are about the state diagram, the versions and the events.
--   Plan (internal/domain/plan): the plan and its steps. Steps and Entity are entity.go; Lifecycle has
--     the sequences of method calls; Ready, Updates, Progress and Execution are about the steps that are
--     ready, about one update and about running a plan.
--   Planner (internal/application/planner): from a text to a plan. Intent is `parseIntent` and
--     `detectApps`; Build is `buildSteps`, with one function for each step, `buildRollbackPlan` and
--     `Plan`. It makes steps of Plan.
--   Application (internal/application/deployment): the service that calls the Kubernetes port, the store,
--     Helm and the publisher of events around the methods of the aggregate. Ports has the calls and
--     their answers, Service the four methods, Requests the sequences of them.
--   Storage (internal/adapters/storage/sqlite): the repository of deployments over a table of rows, which
--     is the store of Application.
--   Cluster (internal/application/cluster): the inventory, whose panic on a release without information
--     is a value of `Ending`, and the analysis of a release's health.
--   Retry (internal/infrastructure/retry): the policies and the options that go to retry-go.
--   Circuit (internal/infrastructure/circuit): the circuit breakers around gobreaker.
--   Config (internal/infrastructure/config): the records of the configuration, its defaults and its loading.
--   Server (internal/infrastructure/server, with pkg/logger and pkg/version): what the handlers of the HTTP
--     server write, the ids of a request and the end of serving.
--   HelmClient (internal/adapters/helm, internal/ports/outbound/helm.go): the Helm port over the Helm SDK.
--     Requests, Queries and Answers have the types of the port; Sdk has what the client uses of the SDK, of
--     the repository file and of the cache, and the laws of these; Actions and Parameters are the actions
--     that a request is turned into; Changes, Reading, Details, Charts, Repositories, Indexes, Testing and
--     Packaging have the methods, under their names, over the `World`: the cluster, the cache and the
--     repository file. DryRuns, Registered, Timeouts and TestOutcomes are about them.
--   KubernetesClient (internal/adapters/kubernetes): the Kubernetes port, one function for each method, by
--     the answers of the API. Rollout is `WaitForRollout`, whose loop runs over the events that its select
--     receives; Waits is about when it ends.
--   Handlers (internal/adapters/mcp/handler.go): the tools. Arguments, Answers and Requests are what they
--     read and make; Lifecycle has the four over the service of Application, Helm, Repositories and
--     Inspection those over HelmClient, Planning those over the answers of Planner and Cluster, Operators,
--     Reports and Advice those that only answer. Tools has the table of the tools
--     (internal/adapters/mcp/server.go). Untouched and Declared are about the cluster and about the
--     parameters.
--   DomainErrors (pkg/errors): the sentinel errors, their wrapping and their codes.
--   Prelude: the names of the libraries, tests on numbers, lists, text as code points, string maps as
--     association lists, and results. Samples: the theorems at concrete inputs.
--
-- How code is written here. A string is a text; code that walks a string walks its code points. A map
-- with string keys is an association list that holds a key once; the order of Go's iteration is left
-- open by the code and does not matter to the results. A nil map is the empty one, where the code does
-- not tell them apart. An `int` is its bit pattern, a number below 2 ^ 64, with its wrap-around written
-- out where the code computes; a time is a number. The clock and the generated ids are parameters: one
-- `Moment` for each method call on an aggregate. All recursion is structural, so there is no fuel;
-- a loop that waits is a function of the events that have come, and `waiting` is one of its results.
-- A number of elements of a slice is not wrapped: no slice has 2 ^ 63 elements.
--
-- What is outside and a parameter: the semver library (`is_semver`), `unicode.ToLower`, `%q`,
-- `cases.Title`, uuid, `time.Since`, the answers of the ports (they may depend on all calls made before), SQLite (the
-- laws of a table with a primary key), encoding/json and RFC 3339 (`Codec`), retry-go (`RetryLaws`),
-- gobreaker (a function around the call), viper and the validator (their answers to `load`), the
-- Helm SDK with its repository file (`SdkLaws`), the answers of client-go, mcp-go's readers (`Parser`).
-- The SDK's answers are releases and charts, never nil pointers.
--
-- What is not modelled: contexts and cancellation, but for the wait for a rollout, the breaker and the end
-- of the HTTP server; logs, metrics and traces; the constructors of the clients; the watching of the
-- configuration's file, which is a call of viper; the start and stop of the process, and the serving of
-- the tools over stdio or SSE, which are input and output. In the service the methods of an aggregate are
-- called from one request only, so there are no interleavings inside a request.
mod Prelude
pub mod Deployment
pub mod Plan
pub mod Planner
pub mod Application
pub mod Storage
pub mod Cluster
pub mod Retry
pub mod Circuit
pub mod Config
pub mod Server
pub mod HelmClient
pub mod KubernetesClient
pub mod Handlers
pub mod DomainErrors
mod Samples
