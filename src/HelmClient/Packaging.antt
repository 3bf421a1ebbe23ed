-- ===== src/HelmClient/Packaging.antt =====
-- The methods of internal/adapters/helm/client.go on archives and registries, and `ReleaseToChartRef`
-- of internal/ports/outbound/helm.go. The SDK's runs are parameters.
use sh_mcp_go.Prelude.{
  String, Bool, not, ◌&&◌, Option, none, some, List, [], ◌∷◌, ◌++◌, Result, if◌then◌else◌, ◌==◌,
}
use sh_mcp_go.Deployment.Chart.{ChartReference, repo}
use sh_mcp_go.HelmClient.Errors.{Error}
use sh_mcp_go.HelmClient.Releases.{Metadata, Release}
use sh_mcp_go.HelmClient.Queries.{RegistryLoginRequest, PackageRequest, PullRequest, PushRequest}
use sh_mcp_go.HelmClient.Sdk.{Sdk}

pub record PackageAction : Type 0 where
  pub version : String
  pub app_version : String
  pub destination : String
  pub sign : Bool
  pub key : String
  pub keyring : String

unfoldable pub package_action : PackageRequest → PackageAction
package_action req = record {
  version = req.version;
  app_version = req.app_version;
  destination = if req.destination == "" then "." else req.destination;
  sign = req.sign;
  key = req.key;
  keyring = req.keyring;
}

-- `PackageChart`.
unfoldable pub package_chart :
    (run_package : PackageAction → (path : String) → Result Error String)
    → PackageRequest
    → Result Error String
unfolding package_action
package_chart run_package req = run_package (package_action req) (req.chart_path)

pub record PullAction : Type 0 where
  pub version : String
  pub repo_url : String
  pub dest_dir : String
  pub untar : Bool
  pub untar_dir : String
  pub username : String
  pub password : String
  pub cert_file : String
  pub key_file : String
  pub ca_file : String
  pub insecure_skip_tls_verify : Bool
  pub pass_credentials_all : Bool
  pub plain_http : Bool

unfoldable pub pull_action : PullRequest → PullAction
pull_action req = record {
  version = req.version;
  repo_url = req.repo_url;
  dest_dir = req.dest_dir;
  untar = req.untar;
  untar_dir = req.untar_dir;
  username = req.username;
  password = req.password;
  cert_file = req.cert_file;
  key_file = req.key_file;
  ca_file = req.ca_file;
  insecure_skip_tls_verify = req.insecure_skip_tls_verify;
  pass_credentials_all = req.pass_credentials_all;
  plain_http = req.plain_http;
}

-- `PullChart`.
unfoldable pub pull_chart :
    (run_pull : PullAction → (chart_ref : String) → Result Error String)
    → PullRequest
    → Result Error String
unfolding pull_action
pull_chart run_pull req = run_pull (pull_action req) (req.chart_ref)

-- The options of `NewPushWithOpts` after the configuration.
pub data PushOption : Type 0 where
  tls_client_config : (cert_file key_file ca_file : String) → PushOption
  insecure_skip_tls_verify plain_http : PushOption

abbrev pub when : {A : Type 0} → Bool → A → List A
when b x = if b then x ∷ [] else []

unfoldable pub push_options : PushRequest → List PushOption
push_options req =
    when (not ((req.cert_file == "") && (req.key_file == "") && (req.ca_file == "")))
      (tls_client_config (req.cert_file) (req.key_file) (req.ca_file))
    ++ (when (req.insecure_skip_tls_verify) insecure_skip_tls_verify
        ++ when (req.plain_http) plain_http)

-- `PushChart`.
unfoldable pub push_chart :
    (run_push : List PushOption → (path remote : String) → Result Error String)
    → PushRequest
    → Result Error String
unfolding push_options
push_chart run_push req = run_push (push_options req) (req.chart_path) (req.remote)

-- `RegistryLogin` and `RegistryLogout`.
unfoldable pub registry_login :
    (sdk : Sdk)
    → (run_login : RegistryLoginRequest → Option Error) → RegistryLoginRequest
    → Option Error
registry_login sdk run_login req = elim (sdk.init "") [ some e ↦ some e | none ↦ run_login req ]

unfoldable pub registry_logout :
    (sdk : Sdk) → (run_logout : (host : String) → Option Error) → (host : String) → Option Error
registry_logout sdk run_logout host = elim (sdk.init "") [
  | some e ↦ some e
  | none ↦ run_logout host
]

abbrev pub chart_metadata : Release → Option Metadata
chart_metadata r = elim (r.chart) [ none ↦ none | some c ↦ c.metadata ]

-- `ReleaseToChartRef`.
unfoldable pub release_to_chart_ref : Release → ChartReference
release_to_chart_ref r = record {
  name = elim (chart_metadata r) [ none ↦ "" | some m ↦ m.name ];
  repo_url = "";
  version = elim (chart_metadata r) [ none ↦ "" | some m ↦ m.version ];
  source = repo;
}
