-- ===== src/Config/Defaults.antt =====
-- internal/infrastructure/config/loader.go: the defaults that viper gets.
use sh_mcp_go.Prelude.{ℕ, ◌*◌, String, Bool, true, false, List, [], ◌∷◌}

-- A default, with the type that it has in Go: a duration is in nanoseconds, a float its bit pattern.
pub data Default : Type 0 where
  text_default : String → Default
  int_default : ℕ → Default
  bool_default : Bool → Default
  duration_default : ℕ → Default
  float32_default : (bits : ℕ) → Default
  float64_default : (bits : ℕ) → Default

abbrev pub seconds : ℕ → Default
seconds n = duration_default (n * 1000000000)

-- The calls of `SetDefault`, in order.
unfoldable pub defaults : List (String × Default)
defaults =
    ("server.host", text_default "0.0.0.0")
    ∷ ("server.port", int_default 8080)
    ∷ ("server.read_timeout", seconds 30)
    ∷ ("server.write_timeout", seconds 30)
    ∷ ("server.idle_timeout", seconds 120)
    ∷ ("server.shutdown_timeout", seconds 15)
    ∷ ("kubernetes.qps", float32_default 1112014848)
    ∷ ("kubernetes.burst", int_default 100)
    ∷ ("kubernetes.timeout", seconds 30)
    ∷ ("kubernetes.default_namespace", text_default "default")
    ∷ ("helm.repository_cache", text_default "/tmp/helm/cache")
    ∷ ("helm.repository_config", text_default "/tmp/helm/repositories.yaml")
    ∷ ("helm.default_timeout", seconds 300)
    ∷ ("helm.max_history", int_default 10)
    ∷ ("helm.atomic", bool_default true)
    ∷ ("helm.wait_for_jobs", bool_default true)
    ∷ ("storage.driver", text_default "sqlite")
    ∷ ("storage.sqlite.path", text_default "/var/lib/sh-mcp-go/state.db")
    ∷ ("observability.metrics_enabled", bool_default true)
    ∷ ("observability.tracing_enabled", bool_default false)
    ∷ ("observability.service_name", text_default "sh-mcp-go")
    ∷ ("observability.sampling_rate", float64_default 4591870180066957722)
    ∷ ("security.enable_rbac_validation", bool_default false)
    ∷ ("security.enable_secret_masking", bool_default true)
    ∷ ("mcp.transport", text_default "stdio")
    ∷ ("mcp.name", text_default "sh-mcp-go")
    ∷ ("mcp.version", text_default "1.0.0")
    ∷ ("mcp.sse_addr", text_default "0.0.0.0:8081")
    ∷ ("log.level", text_default "info")
    ∷ ("log.format", text_default "json")
    ∷ []
