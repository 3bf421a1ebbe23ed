-- ===== src/Config.antt =====
-- internal/infrastructure/config: the configuration and its loading. A duration is in nanoseconds, a float
-- is its bit pattern. viper and the validator are parameters.
pub mod Defaults
use sh_mcp_go.Prelude.{
  ℕ, String, Bool, Option, none, some, List, Result, ok, err, if◌then◌else◌, ◌==◌,
}

pub record ServerConfig : Type 0 where
  pub host : String
  pub port : ℕ
  pub read_timeout : ℕ
  pub write_timeout : ℕ
  pub idle_timeout : ℕ
  pub shutdown_timeout : ℕ
  pub tls_cert_file : String
  pub tls_key_file : String

pub record KubernetesConfig : Type 0 where
  pub kubeconfig_path : String
  pub in_cluster : Bool
  pub qps : ℕ
  pub burst : ℕ
  pub timeout : ℕ
  pub default_ns : String

pub record HelmConfig : Type 0 where
  pub repository_cache : String
  pub repository_config : String
  pub registry_config : String
  pub plugins_dir : String
  pub default_timeout : ℕ
  pub max_history : ℕ
  pub atomic : Bool
  pub wait_for_jobs : Bool
  pub ca_file : String
  pub cert_file : String
  pub key_file : String
  pub insecure_skip_tls_verify : Bool
  pub plain_http : Bool

pub record SqliteConfig : Type 0 where
  pub path : String

pub record PostgresConfig : Type 0 where
  pub host : String
  pub port : ℕ
  pub user : String
  pub password : String
  pub db_name : String
  pub ssl_mode : String
  pub max_conns : ℕ
  pub min_conns : ℕ

pub record StorageConfig : Type 0 where
  pub driver : String
  pub sqlite : SqliteConfig
  pub postgres : PostgresConfig

pub record ObservabilityConfig : Type 0 where
  pub metrics_enabled : Bool
  pub tracing_enabled : Bool
  pub otlp_endpoint : String
  pub service_name : String
  pub sampling_rate : ℕ

pub record SecurityConfig : Type 0 where
  pub enable_rbac_validation : Bool
  pub enable_secret_masking : Bool
  pub allowed_namespaces : List String
  pub denied_namespaces : List String
  pub required_labels : List (String × String)

pub record McpConfig : Type 0 where
  pub transport : String
  pub sse_addr : String
  pub name : String
  pub version : String

pub record LogConfig : Type 0 where
  pub level : String
  pub format : String

pub record Config : Type 0 where
  pub server : ServerConfig
  pub kubernetes : KubernetesConfig
  pub helm : HelmConfig
  pub storage : StorageConfig
  pub observability : ObservabilityConfig
  pub security : SecurityConfig
  pub mcp : McpConfig
  pub log : LogConfig
  pub version : String

-- `slog.Level`.
pub data Level : Type 0 where
  level_debug level_info level_warn level_error : Level

-- `SlogLevel`.
unfoldable pub slog_level : LogConfig → Level
slog_level l =
    if l.level == "debug"
    then level_debug
    else if l.level == "warn"
    then level_warn
    else if l.level == "error"
    then level_error
    else level_info

-- What `ReadInConfig` answers.
pub data ReadAnswer (E : Type 0) : Type 0 where
  read_done file_not_found : ReadAnswer E
  read_failed : E → ReadAnswer E

pub data LoadError (E : Type 0) : Type 0 where
  reading unmarshaling validation : E → LoadError E

module _ {E : Type 0} (unmarshal : Result E Config) (validate : Config → Option E) where
  abbrev pub validated : Config → Result (LoadError E) Config
  validated cfg = elim (validate cfg) [ none ↦ ok cfg | some e ↦ err (validation e) ]

  abbrev pub unmarshaled : Result E Config → Result (LoadError E) Config
  unmarshaled (err e) = err (unmarshaling e)
  unmarshaled (ok cfg) = validated cfg

  -- `Load`: a file that is not there is no error.
  unfoldable pub load : ReadAnswer E → Result (LoadError E) Config
  load (read_failed e) = err (reading e)
  load read_done = unmarshaled unmarshal
  load file_not_found = unmarshaled unmarshal
