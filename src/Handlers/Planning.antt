-- ===== src/Handlers/Planning.antt =====
-- The tools of internal/adapters/mcp/handler.go over the planner and the cluster service, by the answers
-- of these, and the other tools that only show what the Helm port answers.
use sh_mcp_go.Prelude.{
  ℕ, String, none, some, List, [], ◌∷◌, map, Result, concat, lookup, if◌then◌else◌, ◌==◌,
}
use sh_mcp_go.HelmClient.Releases.{Metadata, Release}
use sh_mcp_go.HelmClient.Answers.{ReleaseMetadata, ReleaseStatusDetails}
use sh_mcp_go.KubernetesClient.Nodes.{ValidationResult}
use sh_mcp_go.KubernetesClient.Estimates.{ResourceEstimate}
use sh_mcp_go.Handlers.Arguments.{Arguments, Parser, release_argument, namespace_argument}
use sh_mcp_go.Handlers.Answers.{ToolResult, tool_text, tool_error, tool_json, answer}
use sh_mcp_go.Handlers.Helm.{metadata_of}
use sh_mcp_go.Handlers.Inspection.{Counted, counted}

-- An item of the answer of `ReleaseInventory`.
pub record InventoryItem : Type 0 where
  pub name : String
  pub namespace : String
  pub chart : String
  pub app_version : String
  pub status : String
  pub revision : ℕ

-- The namespace and the application's version are of the SDK.
module _ (namespace_of : Release → String) (app_version_of : Metadata → String) where
  abbrev pub chart_with_version : Metadata → String
  unfolding concat
  chart_with_version m = concat (m.name ∷ "-" ∷ m.version ∷ [])

  unfoldable pub inventory_item : Release → InventoryItem
  unfolding concat
  inventory_item r = record {
    name = r.name;
    namespace = namespace_of r;
    chart = elim (metadata_of r) [ none ↦ "" | some m ↦ chart_with_version m ];
    app_version = elim (metadata_of r) [ none ↦ "" | some m ↦ app_version_of m ];
    status = elim (r.info) [ none ↦ "" | some info ↦ info.status ];
    revision = r.version;
  }

-- A recommendation of `RecommendOperator`.
pub record Recommendation : Type 0 where
  pub name : String
  pub description : String
  pub chart : String
  pub repo : String

abbrev pub recommend : (name description chart repo : String) → Recommendation
recommend name description chart repo = record {
  name = name;
  description = description;
  chart = chart;
  repo = repo;
}

abbrev pub recommendations : List (String × List Recommendation)
recommendations =
    (
      "database",
      recommend "CloudNativePG" "PostgreSQL operator" "cloudnative-pg"
            "https://cloudnative-pg.io/charts"
          ∷ recommend "MySQL Operator" "MySQL/InnoDB cluster" "mysql-operator"
              "https://mysql.github.io/mysql-operator/"
          ∷ [],
    )
    ∷ (
      "messaging",
      recommend "Strimzi" "Apache Kafka operator" "strimzi-kafka-operator"
            "https://strimzi.io/charts/"
          ∷ recommend "RabbitMQ Operator" "RabbitMQ cluster operator" "rabbitmq-cluster-operator"
              "https://charts.bitnami.com/bitnami"
          ∷ [],
    )
    ∷ (
      "monitoring",
      recommend "Prometheus Operator" "Prometheus & Alertmanager operator" "kube-prometheus-stack"
            "https://prometheus-community.github.io/helm-charts"
          ∷ [],
    )
    ∷ (
      "storage",
      recommend "Rook" "Ceph storage operator" "rook-ceph" "https://charts.rook.io/release" ∷ [],
    )
    ∷ []

module _ (parser : Parser) where
  -- `RecommendOperator`; `quote` is `%q`.
  unfoldable pub recommend_operator_tool :
      (quote : String → String)
      → (marshal : String × List Recommendation → Result String String) → Arguments
      → ToolResult
  unfolding lookup concat tool_json
  recommend_operator_tool quote marshal args =
      let workload_type = parser.parse_string args "workload_type" "" in
      elim (lookup workload_type recommendations) [
        | none ↦ tool_text (
            concat (
              "No operator recommendations found for workload type "
              ∷ quote workload_type
              ∷ ". Try: database, messaging, monitoring, storage"
              ∷ []))
        | some recs ↦ tool_json marshal (workload_type, recs)
      ]

  module _ {E : Type 0} (error_text : E → String) where
    -- `PlanDeployment`; `P` is the plan, `marshal` shows it.
    unfoldable pub plan_deployment_tool :
        {P : Type 0}
        → (plan : (intent namespace : String) → Result E P) → (marshal : P → Result String String)
        → Arguments
        → ToolResult
    unfolding answer tool_json
    plan_deployment_tool plan marshal args =
        if parser.parse_string args "intent" "" == ""
        then tool_error "intent parameter is required"
        else answer error_text "plan_deployment" (tool_json marshal)
            (plan (parser.parse_string args "intent" "") (namespace_argument parser args))

    -- `ValidateCluster` and `ClusterInventory`.
    unfoldable pub validate_cluster_tool :
        (validate : Result E ValidationResult)
        → (marshal : ValidationResult → Result String String) → ToolResult
    unfolding answer tool_json
    validate_cluster_tool validate marshal =
        answer error_text "validate_cluster" (tool_json marshal) validate

    unfoldable pub cluster_inventory_tool :
        {I : Type 0} → (inventory : Result E I) → (marshal : I → Result String String) → ToolResult
    unfolding answer tool_json
    cluster_inventory_tool inventory marshal =
        answer error_text "cluster_inventory" (tool_json marshal) inventory

    -- `ReleaseInventory`; `to_item` is `inventory_item`.
    unfoldable pub release_inventory_tool :
        (list_releases : (namespace : String) → Result E (List Release))
        → (to_item : Release → InventoryItem)
        → (marshal : Counted InventoryItem → Result String String) → Arguments
        → ToolResult
    unfolding answer tool_json
    release_inventory_tool list_releases to_item marshal args =
        answer error_text "release_inventory"
          (λ releases. tool_json marshal (counted (map to_item releases)))
          (list_releases (parser.parse_string args "namespace" ""))

    -- `ResourceEstimation`.
    unfoldable pub resource_estimation_tool :
        (estimate : (chart_name namespace : String) → (replicas : ℕ) → Result E ResourceEstimate)
        → (marshal : ResourceEstimate → Result String String) → Arguments
        → ToolResult
    unfolding answer tool_json
    resource_estimation_tool estimate marshal args =
        answer error_text "resource_estimation" (tool_json marshal) (
          estimate (parser.parse_string args "chart_name" "") (namespace_argument parser args)
            (parser.parse_int args "replicas" 1))

    -- `GetReleaseMetadata` and `GetReleaseStatusResources`.
    unfoldable pub get_release_metadata_tool :
        (get : (release_name namespace : String) → (version : ℕ) → Result E ReleaseMetadata)
        → (marshal : ReleaseMetadata → Result String String) → Arguments
        → ToolResult
    unfolding answer tool_json
    get_release_metadata_tool get marshal args =
        answer error_text "get_release_metadata" (tool_json marshal) (
          get (release_argument parser args) (namespace_argument parser args)
            (parser.parse_int args "version" 0))

    unfoldable pub get_release_status_resources_tool :
        (get : (release_name namespace : String) → (version : ℕ) → Result E ReleaseStatusDetails)
        → (marshal : ReleaseStatusDetails → Result String String) → Arguments
        → ToolResult
    unfolding answer tool_json
    get_release_status_resources_tool get marshal args =
        answer error_text "get_release_status_resources" (tool_json marshal) (
          get (release_argument parser args) (namespace_argument parser args)
            (parser.parse_int args "version" 0))
