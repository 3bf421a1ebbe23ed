-- ===== src/KubernetesClient/Workloads.antt =====
-- `isWorkloadReady` and `GetResourceHealth` of internal/adapters/kubernetes/client.go.
use sh_mcp_go.Prelude.{
  ℕ, String, Bool, Option, none, some, List, [], ◌∷◌, ◌++◌, Result, ok, err, eqb, if◌then◌else◌,
  ◌==◌,
}
use sh_mcp_go.Cluster.Analysis.{HealthStatus, healthy, degraded}
use sh_mcp_go.KubernetesClient.Api.{ApiError, Error, api, unsupported_kind, Workload, DaemonSet}

-- What `Get` answers for the workloads at some time.
pub record Snapshot : Type 0 where
  pub deployment : (namespace name : String) → Result ApiError Workload
  pub stateful_set : (namespace name : String) → Result ApiError Workload
  pub daemon_set : (namespace name : String) → Result ApiError DaemonSet

-- How a check ends; reading a nil `Replicas` panics.
pub data Check : Type 0 where
  ready not_ready panicked : Check
  check_error : Error → Check

abbrev pub check_of : Bool → Check
check_of b = if b then ready else not_ready

abbrev pub check_replicas : (ready_replicas : ℕ) → Option ℕ → Check
check_replicas ready_replicas none = panicked
check_replicas ready_replicas (some replicas) = check_of (eqb ready_replicas replicas)

abbrev pub check_workload : Result ApiError Workload → Check
check_workload (err e) = check_error (api e)
check_workload (ok d) = check_replicas (d.ready_replicas) (d.replicas)

abbrev pub check_daemon_set : Result ApiError DaemonSet → Check
check_daemon_set (err e) = check_error (api e)
check_daemon_set (ok ds) = check_of (eqb (ds.number_ready) (ds.desired_number_scheduled))

-- `isWorkloadReady`.
unfoldable pub is_workload_ready : (kind name namespace : String) → Snapshot → Check
is_workload_ready kind name namespace now =
    if kind == "Deployment"
    then check_workload (now.deployment namespace name)
    else if kind == "StatefulSet"
    then check_workload (now.stateful_set namespace name)
    else if kind == "DaemonSet"
    then check_daemon_set (now.daemon_set namespace name)
    else check_error (unsupported_kind kind)

-- `cluster.ResourceHealth`, whose message is not set; `age` is the bit pattern of a duration, which is
-- negative where the time is to come. In what follows `since` is `time.Since`.
pub record ResourceHealth : Type 0 where
  pub kind : String
  pub name : String
  pub namespace : String
  pub status : HealthStatus
  pub ready : Bool
  pub age : ℕ

abbrev pub health_of :
    (kind : String) → (since : ℕ → ℕ) → Workload → (replicas : ℕ) → ResourceHealth
health_of kind since d replicas = record {
  kind = kind;
  name = d.name;
  namespace = d.namespace;
  status = if eqb (d.ready_replicas) replicas then healthy else degraded;
  ready = eqb (d.ready_replicas) replicas;
  age = since d.created;
}

-- The loop over the workloads of a kind; `none` is the panic.
unfoldable pub health_of_all :
    (kind : String) → (since : ℕ → ℕ) → List Workload → Option (List ResourceHealth)
health_of_all kind since [] = some []
health_of_all kind since (d ∷ ds) = elim (d.replicas) [
  | none ↦ none
  | some replicas ↦ elim (health_of_all kind since ds) [
    | none ↦ none
    | some rest ↦ some (health_of kind since d replicas ∷ rest)
  ]
]

-- The items of a list; where it fails, there are none.
abbrev pub items_of : Result ApiError (List Workload) → List Workload
items_of (err e) = []
items_of (ok items) = items

-- `GetResourceHealth`, by the answers to the two `List`s; its error is always nil.
unfoldable pub get_resource_health :
    (since : ℕ → ℕ)
    → (deployments stateful_sets : Result ApiError (List Workload)) → Option (List ResourceHealth)
unfolding health_of_all
get_resource_health since deployments stateful_sets =
    elim (health_of_all "Deployment" since (items_of deployments)) [
      | none ↦ none
      | some first ↦ elim (health_of_all "StatefulSet" since (items_of stateful_sets)) [
        | none ↦ none
        | some second ↦ some (first ++ second)
      ]
    ]
