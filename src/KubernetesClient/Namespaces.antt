-- ===== src/KubernetesClient/Namespaces.antt =====
-- The methods of internal/adapters/kubernetes/client.go on namespaces.
use sh_mcp_go.Prelude.{String, Option, none, some, List, map, Result, ok, err}
use sh_mcp_go.KubernetesClient.Api.{ApiError, already_exists, not_found, Error, api, during, failed}

-- `outbound.NamespaceSpec`.
pub record NamespaceSpec : Type 0 where
  pub name : String
  pub labels : List (String × String)
  pub annotations : List (String × String)

-- What `EnsureNamespace` makes of the answer to `Create`.
unfoldable pub created : (name : String) → Option ApiError → Option Error
created name none = none
created name (some already_exists) = none
created name (some e) = some (during "creating namespace" name e)

-- What `DeleteNamespace` makes of the answer to `Delete`.
unfoldable pub deleted : Option ApiError → Option Error
deleted none = none
deleted (some not_found) = none
deleted (some e) = some (api e)

-- `Cluster` is the state of the cluster. A call answers with the state after it.
module _ {Cluster : Type 0} where
  -- `EnsureNamespace`.
  unfoldable pub ensure_namespace :
      (create : NamespaceSpec → Cluster → Cluster × Option ApiError)
      → NamespaceSpec
      → Cluster
      → Cluster × Option Error
  unfolding created
  ensure_namespace create spec c =
      let (after, answer) = create spec c in (after, created (spec.name) answer)

  -- `DeleteNamespace`.
  unfoldable pub delete_namespace :
      (delete : (name : String) → Cluster → Cluster × Option ApiError)
      → (name : String) → Cluster
      → Cluster × Option Error
  unfolding deleted
  delete_namespace delete name c = let (after, answer) = delete name c in (after, deleted answer)

-- `ListNamespaces`, by the answer to `List`.
unfoldable pub list_namespaces : Result ApiError (List NamespaceSpec) → Result Error (List String)
list_namespaces (err e) = err (failed "listing namespaces" e)
list_namespaces (ok items) = ok (map (λ ns. ns.name) items)
