-- ===== src/HelmClient/Queries.antt =====
-- The other requests of internal/ports/outbound/helm.go.
use sh_mcp_go.Prelude.{ℕ, String, Bool, List, Any}

pub record RepoEntry : Type 0 where
  pub name : String
  pub url : String
  pub username : String
  pub password : String
  pub ca_file : String
  pub cert_file : String
  pub key_file : String
  pub insecure_skip_tls_verify : Bool
  pub pass_credentials_all : Bool

pub record TemplateRequest : Type 0 where
  pub release_name : String
  pub namespace : String
  pub chart_name : String
  pub repo_url : String
  pub version : String
  pub values : List (String × Any)
  pub show_notes : Bool
  pub include_crds : Bool
  pub skip_schema_validation : Bool

pub record HelmListRequest : Type 0 where
  pub namespace : String
  pub all_namespaces : Bool
  pub filter : String
  pub selector : String
  pub state_mask : String
  pub limit : ℕ
  pub offset : ℕ
  pub sort_by : String
  pub sort_reverse : Bool

pub record RegistryLoginRequest : Type 0 where
  pub host : String
  pub username : String
  pub password : String
  pub cert_file : String
  pub key_file : String
  pub ca_file : String
  pub insecure_skip_tls_verify : Bool
  pub plain_http : Bool

pub record PackageRequest : Type 0 where
  pub chart_path : String
  pub version : String
  pub app_version : String
  pub destination : String
  pub sign : Bool
  pub key : String
  pub keyring : String

pub record PullRequest : Type 0 where
  pub chart_ref : String
  pub version : String
  pub repo_url : String
  pub dest_dir : String
  pub untar : Bool
  pub untar_dir : String
  pub username : String
  pub password : String
  pub cert_file : String
  pub key_file : String
  pub ca_file : String
  pub insecure_skip_tls_verify : Bool
  pub pass_credentials_all : Bool
  pub plain_http : Bool

pub record PushRequest : Type 0 where
  pub chart_path : String
  pub remote : String
  pub cert_file : String
  pub key_file : String
  pub ca_file : String
  pub insecure_skip_tls_verify : Bool
  pub plain_http : Bool
