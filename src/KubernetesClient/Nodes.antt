-- ===== src/KubernetesClient/Nodes.antt =====
-- `listNodes`, `ValidateCluster` and `GetClusterInfo` of internal/adapters/kubernetes/client.go.
use sh_mcp_go.Prelude.{
  ℕ, suc, String, Bool, true, false, ◌||◌, List, [], ◌∷◌, ◌++◌, map, Result, ok, err, and_then,
  is_nil, ltb, if◌then◌else◌, ◌==◌,
}
use sh_mcp_go.KubernetesClient.Api.{
  ApiError, Error, api, failed, NodeCondition, Resources, ApiNode, CustomResource,
}
use sh_mcp_go.KubernetesClient.Namespaces.{NamespaceSpec, list_namespaces}
use sh_mcp_go.KubernetesClient.Definitions.{Crd, list_crds}

-- `cluster.NodeStatus`.
pub data NodeStatus : Type 0 where
  node_ready node_not_ready node_unknown : NodeStatus

-- `cluster.Node`, whose `Taints` are not set.
pub record Node : Type 0 where
  pub name : String
  pub status : NodeStatus
  pub roles : List String
  pub labels : List (String × String)
  pub capacity : Resources
  pub allocatable : Resources

-- The loop over the conditions: the last one of the type Ready counts.
unfoldable pub status_from : NodeStatus → List NodeCondition → NodeStatus
status_from status [] = status
status_from status (cond ∷ conditions) =
    if cond.is_ready_type
    then status_from (if cond.is_true then node_ready else node_not_ready) conditions
    else status_from status conditions

abbrev pub role_of : (label : String) → List String
role_of label =
    if (label == "node-role.kubernetes.io/master")
      || (label == "node-role.kubernetes.io/control-plane")
    then "control-plane" ∷ []
    else if label == "node-role.kubernetes.io/worker"
    then "worker" ∷ []
    else []

-- The loop over the labels, in the order in which they are visited.
unfoldable pub roles_of : List (String × String) → List String
roles_of [] = []
roles_of ((label, value) ∷ labels) = role_of label ++ roles_of labels

abbrev pub roles_or_worker : List String → List String
roles_or_worker roles = if is_nil roles then "worker" ∷ [] else roles

unfoldable pub to_node : ApiNode → Node
unfolding status_from roles_of
to_node n = record {
  name = n.name;
  status = status_from node_unknown (n.conditions);
  roles = roles_or_worker (roles_of (n.labels));
  labels = n.labels;
  capacity = n.capacity;
  allocatable = n.allocatable;
}

-- `listNodes`, by the answer to `List`.
unfoldable pub list_nodes : Result ApiError (List ApiNode) → Result Error (List Node)
unfolding to_node
list_nodes (err e) = err (api e)
list_nodes (ok items) = ok (map to_node items)

-- `GetServerVersion`, by the answer of the discovery client.
unfoldable pub get_server_version : Result ApiError String → Result Error String
get_server_version (err e) = err (failed "getting server version" e)
get_server_version (ok version) = ok version

-- `cluster.ClusterInfo`, whose releases are not set.
pub record ClusterInfo : Type 0 where
  pub server_version : String
  pub nodes : List Node
  pub namespaces : List String
  pub crds : List Crd
  pub collected_at : ℕ

abbrev pub crds_or_none : Result Error (List Crd) → List Crd
crds_or_none (err e) = []
crds_or_none (ok crds) = crds

abbrev pub cluster_info :
    (now : ℕ)
    → (crds : Result Error (List Crd)) → (version : String) → (namespaces : List String)
    → (nodes : List Node) → ClusterInfo
cluster_info now crds version namespaces nodes = record {
  server_version = version;
  nodes = nodes;
  namespaces = namespaces;
  crds = crds_or_none crds;
  collected_at = now;
}

-- `GetClusterInfo`, by the answers of the API: the error of `ListCRDs` is dropped.
unfoldable pub get_cluster_info :
    (now : ℕ)
    → Result ApiError String
    → Result ApiError (List NamespaceSpec)
    → Result ApiError (List ApiNode)
    → Result ApiError (List CustomResource)
    → Result Error ClusterInfo
unfolding get_server_version list_namespaces list_nodes list_crds
get_cluster_info now version_answer namespace_answer node_answer crd_answer =
    and_then (get_server_version version_answer) (λ version.
      and_then (list_namespaces namespace_answer) (λ namespaces.
        and_then (list_nodes node_answer)
          (λ nodes. ok (cluster_info now (list_crds crd_answer) version namespaces nodes))))

-- The texts of `cluster.ValidationResult`.
pub data Warning : Type 0 where
  no_nodes : Warning
  nodes_not_ready : (count : ℕ) → Warning

pub data Problem : Type 0 where
  cannot_reach_server cannot_list_nodes : Error → Problem

pub record ValidationResult : Type 0 where
  pub valid : Bool
  pub errors : List Problem
  pub warnings : List Warning
  pub checked_at : ℕ

abbrev pub is_ready : NodeStatus → Bool
is_ready node_ready = true
is_ready _ = false

unfoldable pub count_not_ready : List Node → ℕ
count_not_ready [] = 0
count_not_ready (n ∷ nodes) =
    let rest = count_not_ready nodes in if is_ready (n.status) then rest else suc rest

abbrev pub ready_warnings : List Node → List Warning
unfolding count_not_ready
ready_warnings nodes =
    if ltb 0 (count_not_ready nodes) then nodes_not_ready (count_not_ready nodes) ∷ [] else []

abbrev pub validated : (now : ℕ) → Result Error (List Node) → ValidationResult
unfolding count_not_ready
validated now (err e) = record {
  valid = false;
  errors = cannot_list_nodes e ∷ [];
  warnings = [];
  checked_at = now;
}
validated now (ok nodes) = record {
  valid = true;
  errors = [];
  warnings = (if is_nil nodes then no_nodes ∷ [] else []) ++ ready_warnings nodes;
  checked_at = now;
}

-- `ValidateCluster`, by the answers of the API; its error is always nil.
unfoldable pub validate_cluster :
    (now : ℕ) → Result ApiError String → Result ApiError (List ApiNode) → ValidationResult
unfolding get_server_version list_nodes count_not_ready
validate_cluster now version_answer node_answer = elim (get_server_version version_answer) [
  | err e ↦ record {
    valid = false;
    errors = cannot_reach_server e ∷ [];
    warnings = [];
    checked_at = now;
  }
  | ok version ↦ validated now (list_nodes node_answer)
]
