-- ===== src/Samples/Tools.antt =====
-- The theorems on internal/adapters/mcp/handler.go at concrete inputs.
use sh_mcp_go.Prelude.{
  String, ◌≡◌, refl, true, false, some, [], ◌∷◌, Any, lookup, sym, Bool-cases, inl, inr, eq_iff,
  ◌==◌,
}
use sh_mcp_go.HelmClient.Releases.{Release}
use sh_mcp_go.Handlers.Arguments.{Arguments, Parser}
use sh_mcp_go.Handlers.Answers.{ToolResult, tool_text}
use sh_mcp_go.Handlers.Helm.{helm_install_tool, helm_upgrade_tool, template_chart_tool}
use sh_mcp_go.Handlers.Repositories.{
  repo_add_tool, repo_remove_tool, repo_update_tool, repo_update_single_tool,
}
use sh_mcp_go.Handlers.Declared.{rollback_chart_handler, made, handlers-declared}
use sh_mcp_go.Handlers.Tools.Schema.{
  Kind, string, boolean, number, object, Tool, declares, SameAt, Agree,
}
use sh_mcp_go.Handlers.Tools.Charts.{
  tool_install_chart, tool_upgrade_chart, tool_rollback_chart, tool_uninstall_chart,
  tool_helm_install, tool_helm_upgrade, tool_helm_rollback, tool_helm_uninstall,
}
use sh_mcp_go.Handlers.Untouched.{dry_tools-cluster, local_tools-cluster}
use sh_mcp_go.Samples.HelmSdk.{small_sdk, small_sdk_laws, three_tries_laws, settings, world}

abbrev parser : Parser
unfolding lookup
parser = record {
  parse_string = λ args key default. elim (lookup key args) [ some (Any.str s) ↦ s | _ ↦ default ];
  parse_boolean =
      λ args key default. elim (lookup key args) [ some (Any.bool b) ↦ b | _ ↦ default ];
  parse_int = λ args key default. elim (lookup key args) [ some (Any.int n) ↦ n | _ ↦ default ];
}

abbrev web : Arguments
web =
    ("release_name", Any.str "web")
    ∷ ("chart_name", Any.str "nginx")
    ∷ ("repo_url", Any.str "https://charts.example.com")
    ∷ ("dry_run", Any.bool true)
    ∷ []

abbrev show : Release → ToolResult
show rel = tool_text (rel.manifest)

dry : parser.parse_boolean web "dry_run" false ≡ true
unfolding lookup
dry = refl

dry_tools-cluster_example :
    ((helm_install_tool small_sdk settings parser (λ e. "failed") show web world).0.cluster
      ≡ world.cluster)
    × ((helm_upgrade_tool small_sdk settings parser (λ e. "failed") show web world).0.cluster
        ≡ world.cluster)
dry_tools-cluster_example =
    dry_tools-cluster small_sdk settings parser (λ e. "failed") (λ s. s) small_sdk_laws
      three_tries_laws show web world dry

local_tools-cluster_example :
    ((template_chart_tool small_sdk settings parser (λ e. "failed") web world).0.cluster
      ≡ world.cluster)
    × ((repo_add_tool parser (λ e. "failed") (λ s. s) small_sdk settings web world).0.cluster
        ≡ world.cluster)
    × ((repo_remove_tool parser (λ e. "failed") (λ s. s) small_sdk settings web world).0.cluster
        ≡ world.cluster)
    × ((repo_update_tool parser (λ e. "failed") (λ s. s) small_sdk settings world).0.cluster
        ≡ world.cluster)
    × ((repo_update_single_tool parser
          (λ e. "failed")
          (λ s. s)
          small_sdk
          settings
          web
          world).0.cluster
        ≡ world.cluster)
local_tools-cluster_example =
    local_tools-cluster small_sdk settings parser (λ e. "failed") (λ s. s) small_sdk_laws
      three_tries_laws web world

-- The same call with one more argument.
abbrev longer : Arguments
longer = ("extra", Any.bool true) ∷ web

lookup-longer : (name : String) → "extra" == name ≡ false → lookup name longer ≡ lookup name web
unfolding lookup
lookup-longer name h = rw h

not_extra :
    (tool : Tool)
    → ((kind : Kind) → declares kind "extra" (tool.params) ≡ false)
    → (kind : Kind) (name : String) → declares kind name (tool.params) ≡ true
    → "extra" == name ≡ false
not_extra tool undeclared kind name declared = elim (Bool-cases ("extra" == name)) [
  | inr h ↦ h
  | inl h ↦ let same = (eq_iff "extra" name).0 h in let absent = undeclared kind in cc
]

same_at :
    (kind : Kind) (name : String)
    → lookup name longer ≡ lookup name web
    → SameAt parser web parser longer kind name
unfolding parser
same_at string name e = λ default. cc
same_at boolean name e = λ default. cc
same_at number name e = λ default. cc
same_at object name e = sym e

longer-Agree :
    (tool : Tool)
    → ((kind : Kind) → declares kind "extra" (tool.params) ≡ false)
    → Agree parser web parser longer tool
longer-Agree tool undeclared kind name declared =
    same_at kind name (lookup-longer name (not_extra tool undeclared kind name declared))

install_chart-Agree : Agree parser web parser longer tool_install_chart
unfolding declares
install_chart-Agree = longer-Agree tool_install_chart (λ kind. refl)

upgrade_chart-Agree : Agree parser web parser longer tool_upgrade_chart
unfolding declares
upgrade_chart-Agree = longer-Agree tool_upgrade_chart (λ kind. refl)

rollback_chart-Agree : Agree parser web parser longer tool_rollback_chart
unfolding declares
rollback_chart-Agree = longer-Agree tool_rollback_chart (λ kind. refl)

uninstall_chart-Agree : Agree parser web parser longer tool_uninstall_chart
unfolding declares
uninstall_chart-Agree = longer-Agree tool_uninstall_chart (λ kind. refl)

helm_install-Agree : Agree parser web parser longer tool_helm_install
unfolding declares
helm_install-Agree = longer-Agree tool_helm_install (λ kind. refl)

helm_upgrade-Agree : Agree parser web parser longer tool_helm_upgrade
unfolding declares
helm_upgrade-Agree = longer-Agree tool_helm_upgrade (λ kind. refl)

helm_rollback-Agree : Agree parser web parser longer tool_helm_rollback
unfolding declares
helm_rollback-Agree = longer-Agree tool_helm_rollback (λ kind. refl)

helm_uninstall-Agree : Agree parser web parser longer tool_helm_uninstall
unfolding declares
helm_uninstall-Agree = longer-Agree tool_helm_uninstall (λ kind. refl)

handlers-declared_example :
    made rollback_chart_handler parser web ≡ made rollback_chart_handler parser longer
handlers-declared_example =
    handlers-declared parser web parser longer rollback_chart_handler rollback_chart-Agree
