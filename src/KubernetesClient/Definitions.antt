-- ===== src/KubernetesClient/Definitions.antt =====
-- The methods of internal/adapters/kubernetes/client.go on custom resource definitions.
use sh_mcp_go.Prelude.{
  String, Bool, true, false, List, [], ◌∷◌, map, Option, none, some, Result, ok, err,
}
use sh_mcp_go.KubernetesClient.Api.{ApiError, not_found, Error, api, failed, CustomResource}

-- `cluster.CRD`.
pub record Crd : Type 0 where
  pub name : String
  pub group : String
  pub version : String
  pub kind : String

abbrev pub first_version : List String → String
first_version [] = ""
first_version (v ∷ versions) = v

abbrev pub to_crd : CustomResource → Crd
to_crd item = record {
  name = item.name;
  group = item.group;
  version = first_version (item.versions);
  kind = item.kind;
}

-- `ListCRDs`, by the answer to `List`.
unfoldable pub list_crds : Result ApiError (List CustomResource) → Result Error (List Crd)
list_crds (err e) = err (failed "listing CRDs" e)
list_crds (ok items) = ok (map to_crd items)

-- `CRDExists`, by the error of `Get`.
unfoldable pub crd_exists : Option ApiError → Result Error Bool
crd_exists none = ok true
crd_exists (some not_found) = ok false
crd_exists (some e) = err (api e)

-- `outbound.CRDInfo`, without the text that nothing reads.
pub record CrdInfo : Type 0 where
  pub name : String
  pub group : String
  pub version : String
  pub kind : String

pub data Scope : Type 0 where
  cluster_scoped namespace_scoped : Scope

-- The definition that is applied, with its one version.
pub record Definition : Type 0 where
  pub name : String
  pub group : String
  pub kind : String
  pub scope : Scope
  pub version : String
  pub served : Bool
  pub storage : Bool
  pub schema_type : String

abbrev pub definition_of : CrdInfo → Definition
definition_of info = record {
  name = info.name;
  group = info.group;
  kind = info.kind;
  scope = namespace_scoped;
  version = info.version;
  served = true;
  storage = true;
  schema_type = "object";
}

-- `ApplyCRD`: `marshal` is `marshalCRD`, `patch` is the server-side apply of its bytes under a name, with
-- the name of the field manager and whether it is forced.
unfoldable pub apply_crd :
    {Bytes : Type 0}
    → (marshal : Definition → Result ApiError Bytes)
    → (patch : (name : String)
        → Bytes
        → (field_manager : String) → (force : Bool) → Option ApiError)
    → CrdInfo
    → Option Error
apply_crd marshal patch info = elim (marshal (definition_of info)) [
  | err e ↦ some (failed "marshaling CRD" e)
  | ok bytes ↦ elim (patch (info.name) bytes "sh-mcp-go" true) [
    | none ↦ none
    | some e ↦ some (api e)
  ]
]
