-- ===== src/Handlers/Declared.antt =====
-- The handlers of internal/adapters/mcp/handler.go against the parameters that
-- internal/adapters/mcp/server.go declares.
use sh_mcp_go.Prelude.{◌≡◌, refl, true, false, lookup}
use sh_mcp_go.Application.Commands.{
  InstallChartCommand, UpgradeChartCommand, RollbackChartCommand, UninstallChartCommand,
}
use sh_mcp_go.HelmClient.Requests.{
  HelmInstallRequest, HelmUpgradeRequest, HelmRollbackRequest, HelmUninstallRequest,
}
use sh_mcp_go.Handlers.Arguments.{Arguments, Parser, values_argument, default_timeout_seconds}
use sh_mcp_go.Handlers.Lifecycle.{
  install_command, upgrade_command, rollback_command, uninstall_command,
}
use sh_mcp_go.Handlers.Requests.{
  install_request, upgrade_request, rollback_request, uninstall_request,
}
use sh_mcp_go.Handlers.Tools.Schema.{Tool, string, boolean, number, object, declares, Agree}
use sh_mcp_go.Handlers.Tools.Charts.{
  tool_install_chart, tool_upgrade_chart, tool_rollback_chart, tool_uninstall_chart,
  tool_helm_install, tool_helm_upgrade, tool_helm_rollback, tool_helm_uninstall,
}

-- The handlers that make a command or a request of their arguments.
pub data Handler : Type 0 where
  install_chart_handler upgrade_chart_handler rollback_chart_handler : Handler
  uninstall_chart_handler helm_install_handler helm_upgrade_handler : Handler
  helm_rollback_handler helm_uninstall_handler : Handler

-- The tool that a handler is registered with, and what it makes of the arguments.
abbrev pub tool_of : Handler → Tool
tool_of install_chart_handler = tool_install_chart
tool_of upgrade_chart_handler = tool_upgrade_chart
tool_of rollback_chart_handler = tool_rollback_chart
tool_of uninstall_chart_handler = tool_uninstall_chart
tool_of helm_install_handler = tool_helm_install
tool_of helm_upgrade_handler = tool_helm_upgrade
tool_of helm_rollback_handler = tool_helm_rollback
tool_of helm_uninstall_handler = tool_helm_uninstall

abbrev pub Made : Handler → Type 0
Made install_chart_handler = InstallChartCommand
Made upgrade_chart_handler = UpgradeChartCommand
Made rollback_chart_handler = RollbackChartCommand
Made uninstall_chart_handler = UninstallChartCommand
Made helm_install_handler = HelmInstallRequest
Made helm_upgrade_handler = HelmUpgradeRequest
Made helm_rollback_handler = HelmRollbackRequest
Made helm_uninstall_handler = HelmUninstallRequest

abbrev pub made : (handler : Handler) → Parser → Arguments → Made handler
made install_chart_handler = install_command
made upgrade_chart_handler = upgrade_command
made rollback_chart_handler = rollback_command
made uninstall_chart_handler = uninstall_command
made helm_install_handler = install_request
made helm_upgrade_handler = upgrade_request
made helm_rollback_handler = rollback_request
made helm_uninstall_handler = uninstall_request

module _ (p : Parser) (args : Arguments) (q : Parser) (others : Arguments) where
  same_values :
      lookup "values" args ≡ lookup "values" others → values_argument args ≡ values_argument others
  unfolding values_argument
  same_values e = cc

  install_command-same :
      Agree p args q others tool_install_chart → install_command p args ≡ install_command q others
  unfolding install_command declares
  install_command-same h =
      let e0 = h string "release_name" refl "" in
      let e1 = h string "namespace" refl "default" in
      let e2 = h string "chart_name" refl "" in
      let e3 = h string "repo_url" refl "" in
      let e4 = h string "version" refl "" in
      let e5 = h boolean "dry_run" refl false in
      let e6 = h boolean "wait" refl true in
      let e7 = h boolean "atomic" refl true in
      let e8 = h boolean "create_namespace" refl true in
      let e9 = h number "timeout_seconds" refl default_timeout_seconds in
      let ev = same_values (h object "values" refl) in cc

  upgrade_command-same :
      Agree p args q others tool_upgrade_chart → upgrade_command p args ≡ upgrade_command q others
  unfolding upgrade_command declares
  upgrade_command-same h =
      let e0 = h string "release_name" refl "" in
      let e1 = h string "namespace" refl "default" in
      let e2 = h string "chart_name" refl "" in
      let e3 = h string "repo_url" refl "" in
      let e4 = h string "version" refl "" in
      let e5 = h boolean "dry_run" refl false in
      let e6 = h boolean "wait" refl true in
      let e7 = h boolean "atomic" refl true in
      let e8 = h boolean "reuse_values" refl false in
      let e9 = h boolean "reset_values" refl false in
      let ev = same_values (h object "values" refl) in cc

  rollback_command-same :
      Agree p args q others tool_rollback_chart
      → rollback_command p args ≡ rollback_command q others
  unfolding rollback_command declares
  rollback_command-same h =
      let e0 = h string "release_name" refl "" in
      let e1 = h string "namespace" refl "default" in
      let e2 = h number "version" refl 0 in
      let e3 = h boolean "dry_run" refl false in let e4 = h boolean "wait" refl true in cc

  uninstall_command-same :
      Agree p args q others tool_uninstall_chart
      → uninstall_command p args ≡ uninstall_command q others
  unfolding uninstall_command declares
  uninstall_command-same h =
      let e0 = h string "release_name" refl "" in
      let e1 = h string "namespace" refl "default" in
      let e2 = h boolean "dry_run" refl false in let e3 = h boolean "keep_history" refl false in cc

  install_request-same :
      Agree p args q others tool_helm_install → install_request p args ≡ install_request q others
  unfolding install_request declares
  install_request-same h =
      let e0 = h string "release_name" refl "" in
      let e1 = h string "namespace" refl "default" in
      let e2 = h string "chart_name" refl "" in
      let e3 = h string "repo_url" refl "" in
      let e4 = h string "version" refl "" in
      let e5 = h boolean "dry_run" refl false in
      let e6 = h boolean "wait" refl true in
      let e7 = h boolean "wait_for_jobs" refl false in
      let e8 = h number "timeout_seconds" refl default_timeout_seconds in
      let e9 = h boolean "atomic" refl false in
      let e10 = h boolean "create_namespace" refl true in
      let e11 = h string "description" refl "" in
      let e12 = h boolean "generate_name" refl false in
      let e13 = h string "name_template" refl "" in
      let e14 = h boolean "disable_hooks" refl false in
      let e15 = h boolean "replace" refl false in
      let e16 = h boolean "skip_crds" refl false in
      let e17 = h boolean "sub_notes" refl false in
      let e18 = h boolean "skip_schema_validation" refl false in
      let e19 = h boolean "disable_openapi_validation" refl false in
      let e20 = h boolean "server_side_apply" refl true in
      let e21 = h boolean "force_conflicts" refl false in
      let e22 = h boolean "take_ownership" refl false in
      let e23 = h boolean "include_crds" refl false in
      let ev = same_values (h object "values" refl) in cc

  upgrade_request-same :
      Agree p args q others tool_helm_upgrade → upgrade_request p args ≡ upgrade_request q others
  unfolding upgrade_request declares
  upgrade_request-same h =
      let e0 = h string "release_name" refl "" in
      let e1 = h string "namespace" refl "default" in
      let e2 = h string "chart_name" refl "" in
      let e3 = h string "repo_url" refl "" in
      let e4 = h string "version" refl "" in
      let e5 = h boolean "dry_run" refl false in
      let e6 = h boolean "wait" refl true in
      let e7 = h number "timeout_seconds" refl default_timeout_seconds in
      let e8 = h boolean "atomic" refl false in
      let e9 = h boolean "reuse_values" refl false in
      let e10 = h boolean "reset_values" refl false in
      let e11 = h string "description" refl "" in
      let e12 = h boolean "disable_hooks" refl false in
      let e13 = h boolean "cleanup_on_fail" refl false in
      let e14 = h number "max_history" refl 0 in
      let e15 = h boolean "rollback_on_failure" refl false in
      let e16 = h boolean "reset_then_reuse_values" refl false in
      let e17 = h boolean "skip_schema_validation" refl false in
      let e18 = h boolean "disable_openapi_validation" refl false in
      let e19 = h string "server_side_apply" refl "" in
      let e20 = h boolean "force_conflicts" refl false in
      let e21 = h boolean "take_ownership" refl false in
      let ev = same_values (h object "values" refl) in cc

  rollback_request-same :
      Agree p args q others tool_helm_rollback → rollback_request p args ≡ rollback_request q others
  unfolding rollback_request declares
  rollback_request-same h =
      let e0 = h string "release_name" refl "" in
      let e1 = h string "namespace" refl "default" in
      let e2 = h number "version" refl 0 in
      let e3 = h boolean "dry_run" refl false in
      let e4 = h boolean "wait" refl true in
      let e5 = h number "timeout_seconds" refl default_timeout_seconds in
      let e6 = h boolean "disable_hooks" refl false in
      let e7 = h boolean "cleanup_on_fail" refl false in
      let e8 = h number "max_history" refl 0 in
      let e9 = h string "server_side_apply" refl "" in
      let e10 = h boolean "force_conflicts" refl false in cc

  uninstall_request-same :
      Agree p args q others tool_helm_uninstall
      → uninstall_request p args ≡ uninstall_request q others
  unfolding uninstall_request declares
  uninstall_request-same h =
      let e0 = h string "release_name" refl "" in
      let e1 = h string "namespace" refl "default" in
      let e2 = h boolean "dry_run" refl false in
      let e3 = h boolean "keep_history" refl false in
      let e4 = h number "timeout_seconds" refl default_timeout_seconds in
      let e5 = h boolean "wait" refl false in
      let e6 = h boolean "disable_hooks" refl false in let e7 = h string "description" refl "" in cc

  -- Each of the eight handlers reads only arguments that its own tool declares, each as the declared
  -- kind: where two calls agree on all parameters that the tool declares, each read as that kind, the
  -- handler makes the same command or request of them.
  pub handlers-declared :
      (handler : Handler)
      → Agree p args q others (tool_of handler)
      → made handler p args ≡ made handler q others
  handlers-declared install_chart_handler h = install_command-same h
  handlers-declared upgrade_chart_handler h = upgrade_command-same h
  handlers-declared rollback_chart_handler h = rollback_command-same h
  handlers-declared uninstall_chart_handler h = uninstall_command-same h
  handlers-declared helm_install_handler h = install_request-same h
  handlers-declared helm_upgrade_handler h = upgrade_request-same h
  handlers-declared helm_rollback_handler h = rollback_request-same h
  handlers-declared helm_uninstall_handler h = uninstall_request-same h
