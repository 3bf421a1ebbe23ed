-- ===== src/Samples/Queries.antt =====
-- The theorems on internal/application/cluster and pkg/errors at concrete inputs.
use Prim.Native.String.{◌++◌ as text_append}
use sh_mcp_go.Prelude.{ℕ, String, ◌≡◌, ◌≢◌, ◌⊎◌, ◌++◌, concat, none, some, List, [], ◌∷◌, ok, All}
use sh_mcp_go.Cluster.Inventory.{
  HelmRelease, Release, ClusterInfo, LacksInfo, Pairwise, panicked, returned, get_inventory,
  get_inventory_lem,
}
use sh_mcp_go.Cluster.Analysis.{
  ResourceHealth, Lines, healthy, degraded, healthy_text, heading, generate_rca, generate_rca_lem,
}
use sh_mcp_go.DomainErrors
use sh_mcp_go.DomainErrors.{GoError, Layer, sentinel, new_layer, wrap_layer, build, new, new-build}

abbrev info : ClusterInfo String
info = record { releases = []; rest = "nodes" }

abbrev web : HelmRelease
web = record {
  name = "web";
  namespace = "default";
  chart = none;
  info = some (record { status = "deployed"; last_deployed = 7 });
}

abbrev broken : HelmRelease
broken = record { name = "db"; namespace = "default"; chart = none; info = none }

get_inventory_lem_example :
    ((get_inventory (ok info) (ok (web ∷ broken ∷ [])) ≡ panicked) × LacksInfo (web ∷ broken ∷ []))
    ⊎ ((rs : List Release) × (get_inventory (ok info) (ok (web ∷ broken ∷ []))
          ≡ returned (ok (record info { releases = info.releases ++ rs })))
        × Pairwise (web ∷ broken ∷ []) rs)
get_inventory_lem_example = get_inventory_lem info (web ∷ broken ∷ [])

abbrev pods : List ResourceHealth
pods =
    record { kind = "Pod"; name = "a"; status = healthy; message = "" }
    ∷ record { kind = "Pod"; name = "b"; status = degraded; message = "0/1" }
    ∷ []

abbrev plain_number : ℕ → String
plain_number n = "1"

abbrev unquoted : String → String
unquoted s = s

generate_rca_lem_example :
    ((generate_rca plain_number unquoted "web" "default" (ok pods)
        ≡ ok (healthy_text plain_number unquoted "web" "default"))
      × All (λ h. h.status ≡ healthy) pods)
    ⊎ ((lines : List String) × Lines plain_number unquoted 0 pods lines
        × (lines ≢ [])
        × (generate_rca plain_number unquoted "web" "default" (ok pods)
            ≡ ok (text_append (heading plain_number unquoted "web" "default") (concat lines))))
generate_rca_lem_example = generate_rca_lem plain_number unquoted "web" "default" pods

abbrev layers : List Layer
layers = wrap_layer "while planning" ∷ new_layer "no release web" ∷ []

new-build_example :
    new (build layers (sentinel DomainErrors.Sentinel.not_found)) "no plan"
    ≡ GoError.domain "NOT_FOUND" "no plan"
        (build layers (sentinel DomainErrors.Sentinel.not_found))
        []
new-build_example = new-build layers DomainErrors.Sentinel.not_found "no plan"
