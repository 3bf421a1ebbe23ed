-- ===== src/Handlers/Requests.antt =====
-- The requests that the handlers of internal/adapters/mcp/handler.go make to the Helm port. What a
-- handler does not set has its zero value.
use sh_mcp_go.Prelude.{true, false, []}
use sh_mcp_go.HelmClient.Requests.{
  HelmInstallRequest, HelmUpgradeRequest, HelmRollbackRequest, HelmUninstallRequest,
}
use sh_mcp_go.HelmClient.Queries.{
  RepoEntry, TemplateRequest, HelmListRequest, RegistryLoginRequest, PackageRequest, PullRequest,
  PushRequest,
}
use sh_mcp_go.Handlers.Arguments.{Arguments, Parser, values_argument, default_timeout_seconds}

module _ (parser : Parser) where
  unfoldable pub install_request : Arguments → HelmInstallRequest
  unfolding values_argument
  install_request args = record {
    release_name = parser.parse_string args "release_name" "";
    namespace = parser.parse_string args "namespace" "default";
    chart_name = parser.parse_string args "chart_name" "";
    repo_url = parser.parse_string args "repo_url" "";
    version = parser.parse_string args "version" "";
    values = values_argument args;
    dry_run = parser.parse_boolean args "dry_run" false;
    wait = parser.parse_boolean args "wait" true;
    wait_for_jobs = parser.parse_boolean args "wait_for_jobs" false;
    timeout = parser.parse_int args "timeout_seconds" default_timeout_seconds;
    atomic = parser.parse_boolean args "atomic" false;
    create_ns = parser.parse_boolean args "create_namespace" true;
    labels = [];
    description = parser.parse_string args "description" "";
    generate_name = parser.parse_boolean args "generate_name" false;
    name_template = parser.parse_string args "name_template" "";
    disable_hooks = parser.parse_boolean args "disable_hooks" false;
    replace = parser.parse_boolean args "replace" false;
    skip_crds = parser.parse_boolean args "skip_crds" false;
    sub_notes = parser.parse_boolean args "sub_notes" false;
    skip_schema_validation = parser.parse_boolean args "skip_schema_validation" false;
    disable_open_api_validation = parser.parse_boolean args "disable_openapi_validation" false;
    server_side_apply = parser.parse_boolean args "server_side_apply" true;
    force_conflicts = parser.parse_boolean args "force_conflicts" false;
    take_ownership = parser.parse_boolean args "take_ownership" false;
    include_crds = parser.parse_boolean args "include_crds" false;
  }

  unfoldable pub upgrade_request : Arguments → HelmUpgradeRequest
  unfolding values_argument
  upgrade_request args = record {
    release_name = parser.parse_string args "release_name" "";
    namespace = parser.parse_string args "namespace" "default";
    chart_name = parser.parse_string args "chart_name" "";
    repo_url = parser.parse_string args "repo_url" "";
    version = parser.parse_string args "version" "";
    values = values_argument args;
    dry_run = parser.parse_boolean args "dry_run" false;
    wait = parser.parse_boolean args "wait" true;
    timeout = parser.parse_int args "timeout_seconds" default_timeout_seconds;
    atomic = parser.parse_boolean args "atomic" false;
    reuse_values = parser.parse_boolean args "reuse_values" false;
    reset_values = parser.parse_boolean args "reset_values" false;
    force = false;
    labels = [];
    description = parser.parse_string args "description" "";
    disable_hooks = parser.parse_boolean args "disable_hooks" false;
    cleanup_on_fail = parser.parse_boolean args "cleanup_on_fail" false;
    max_history = parser.parse_int args "max_history" 0;
    rollback_on_failure = parser.parse_boolean args "rollback_on_failure" false;
    reset_then_reuse_values = parser.parse_boolean args "reset_then_reuse_values" false;
    skip_schema_validation = parser.parse_boolean args "skip_schema_validation" false;
    disable_open_api_validation = parser.parse_boolean args "disable_openapi_validation" false;
    server_side_apply = parser.parse_string args "server_side_apply" "";
    force_conflicts = parser.parse_boolean args "force_conflicts" false;
    take_ownership = parser.parse_boolean args "take_ownership" false;
  }

  unfoldable pub rollback_request : Arguments → HelmRollbackRequest
  rollback_request args = record {
    release_name = parser.parse_string args "release_name" "";
    namespace = parser.parse_string args "namespace" "default";
    version = parser.parse_int args "version" 0;
    dry_run = parser.parse_boolean args "dry_run" false;
    wait = parser.parse_boolean args "wait" true;
    timeout = parser.parse_int args "timeout_seconds" default_timeout_seconds;
    force = false;
    disable_hooks = parser.parse_boolean args "disable_hooks" false;
    cleanup_on_fail = parser.parse_boolean args "cleanup_on_fail" false;
    max_history = parser.parse_int args "max_history" 0;
    server_side_apply = parser.parse_string args "server_side_apply" "";
    force_conflicts = parser.parse_boolean args "force_conflicts" false;
  }

  unfoldable pub uninstall_request : Arguments → HelmUninstallRequest
  uninstall_request args = record {
    release_name = parser.parse_string args "release_name" "";
    namespace = parser.parse_string args "namespace" "default";
    dry_run = parser.parse_boolean args "dry_run" false;
    keep_history = parser.parse_boolean args "keep_history" false;
    timeout = parser.parse_int args "timeout_seconds" default_timeout_seconds;
    wait = parser.parse_boolean args "wait" false;
    disable_hooks = parser.parse_boolean args "disable_hooks" false;
    description = parser.parse_string args "description" "";
  }

  unfoldable pub template_request : Arguments → TemplateRequest
  unfolding values_argument
  template_request args = record {
    release_name = parser.parse_string args "release_name" "";
    namespace = parser.parse_string args "namespace" "default";
    chart_name = parser.parse_string args "chart_name" "";
    repo_url = parser.parse_string args "repo_url" "";
    version = parser.parse_string args "version" "";
    values = values_argument args;
    show_notes = parser.parse_boolean args "show_notes" false;
    include_crds = parser.parse_boolean args "include_crds" false;
    skip_schema_validation = parser.parse_boolean args "skip_schema_validation" false;
  }

  unfoldable pub list_request : Arguments → HelmListRequest
  list_request args = record {
    namespace = parser.parse_string args "namespace" "";
    all_namespaces = parser.parse_boolean args "all_namespaces" false;
    filter = parser.parse_string args "filter" "";
    selector = parser.parse_string args "selector" "";
    state_mask = parser.parse_string args "state_mask" "all";
    limit = parser.parse_int args "limit" 0;
    offset = parser.parse_int args "offset" 0;
    sort_by = parser.parse_string args "sort_by" "";
    sort_reverse = parser.parse_boolean args "sort_reverse" false;
  }

  unfoldable pub repo_entry : Arguments → RepoEntry
  repo_entry args = record {
    name = parser.parse_string args "name" "";
    url = parser.parse_string args "url" "";
    username = parser.parse_string args "username" "";
    password = parser.parse_string args "password" "";
    ca_file = parser.parse_string args "ca_file" "";
    cert_file = parser.parse_string args "cert_file" "";
    key_file = parser.parse_string args "key_file" "";
    insecure_skip_tls_verify = parser.parse_boolean args "insecure_skip_tls_verify" false;
    pass_credentials_all = parser.parse_boolean args "pass_credentials_all" false;
  }

  unfoldable pub login_request : Arguments → RegistryLoginRequest
  login_request args = record {
    host = parser.parse_string args "host" "";
    username = parser.parse_string args "username" "";
    password = parser.parse_string args "password" "";
    cert_file = parser.parse_string args "cert_file" "";
    key_file = parser.parse_string args "key_file" "";
    ca_file = parser.parse_string args "ca_file" "";
    insecure_skip_tls_verify = parser.parse_boolean args "insecure_skip_tls_verify" false;
    plain_http = parser.parse_boolean args "plain_http" false;
  }

  unfoldable pub package_request : Arguments → PackageRequest
  package_request args = record {
    chart_path = parser.parse_string args "chart_path" "";
    version = parser.parse_string args "version" "";
    app_version = parser.parse_string args "app_version" "";
    destination = parser.parse_string args "destination" ".";
    sign = parser.parse_boolean args "sign" false;
    key = parser.parse_string args "key" "";
    keyring = parser.parse_string args "keyring" "";
  }

  unfoldable pub pull_request : Arguments → PullRequest
  pull_request args = record {
    chart_ref = parser.parse_string args "chart_ref" "";
    version = parser.parse_string args "version" "";
    repo_url = parser.parse_string args "repo_url" "";
    dest_dir = parser.parse_string args "dest_dir" "";
    untar = parser.parse_boolean args "untar" false;
    untar_dir = parser.parse_string args "untar_dir" "";
    username = parser.parse_string args "username" "";
    password = parser.parse_string args "password" "";
    cert_file = parser.parse_string args "cert_file" "";
    key_file = parser.parse_string args "key_file" "";
    ca_file = parser.parse_string args "ca_file" "";
    insecure_skip_tls_verify = parser.parse_boolean args "insecure_skip_tls_verify" false;
    pass_credentials_all = parser.parse_boolean args "pass_credentials_all" false;
    plain_http = parser.parse_boolean args "plain_http" false;
  }

  unfoldable pub push_request : Arguments → PushRequest
  push_request args = record {
    chart_path = parser.parse_string args "chart_path" "";
    remote = parser.parse_string args "remote" "";
    cert_file = parser.parse_string args "cert_file" "";
    key_file = parser.parse_string args "key_file" "";
    ca_file = parser.parse_string args "ca_file" "";
    insecure_skip_tls_verify = parser.parse_boolean args "insecure_skip_tls_verify" false;
    plain_http = parser.parse_boolean args "plain_http" false;
  }
