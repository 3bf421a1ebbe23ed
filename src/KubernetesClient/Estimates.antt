-- ===== src/KubernetesClient/Estimates.antt =====
-- `EstimateResources` and `buildRESTConfig` of internal/adapters/kubernetes/client.go.
use sh_mcp_go.Prelude.{ℕ, ◌*◌, ◌%◌, ◌^◌, String, Bool, List, [], ◌∷◌, concat, if◌then◌else◌, ◌==◌}

-- `outbound.ResourceEstimate`; `storage_gb` is the number that is converted to a float.
pub record ResourceEstimate : Type 0 where
  pub cpu_request : String
  pub cpu_limit : String
  pub memory_request : String
  pub memory_limit : String
  pub storage_gb : ℕ
  pub notes : List String

-- `%d` of an `int`.
module _ (decimal : ℕ → String) where
  abbrev pub scaled : (amount replicas : ℕ) → (unit : String) → String
  unfolding concat
  scaled amount replicas unit = concat (decimal (amount * replicas % 2 ^ 64) ∷ unit ∷ [])

  -- `EstimateResources`.
  unfoldable pub estimate_resources : (chart_name : String) → (replicas : ℕ) → ResourceEstimate
  unfolding concat
  estimate_resources chart_name replicas =
      if chart_name == "prometheus"
      then record {
        cpu_request = scaled 100 replicas "m";
        cpu_limit = scaled 500 replicas "m";
        memory_request = scaled 256 replicas "Mi";
        memory_limit = scaled 1024 replicas "Mi";
        storage_gb = 10 * replicas % 2 ^ 64;
        notes = [];
      }
      else if chart_name == "grafana"
      then record {
        cpu_request = "50m";
        cpu_limit = "200m";
        memory_request = "128Mi";
        memory_limit = "512Mi";
        storage_gb = 1;
        notes = [];
      }
      else if chart_name == "redis"
      then record {
        cpu_request = scaled 50 replicas "m";
        cpu_limit = scaled 200 replicas "m";
        memory_request = scaled 128 replicas "Mi";
        memory_limit = scaled 512 replicas "Mi";
        storage_gb = 5 * replicas % 2 ^ 64;
        notes = [];
      }
      else record {
        cpu_request = "100m";
        cpu_limit = "500m";
        memory_request = "128Mi";
        memory_limit = "512Mi";
        storage_gb = 5;
        notes = "estimate based on defaults; tune for production" ∷ [];
      }

-- Where `buildRESTConfig` takes the configuration from.
pub data ConfigSource : Type 0 where
  in_cluster default_rules : ConfigSource
  kubeconfig : (path : String) → ConfigSource

unfoldable pub build_rest_config :
    (in_cluster_flag : Bool) → (kubeconfig_path : String) → ConfigSource
build_rest_config in_cluster_flag kubeconfig_path =
    if in_cluster_flag
    then in_cluster
    else if kubeconfig_path == ""
    then default_rules
    else kubeconfig kubeconfig_path
