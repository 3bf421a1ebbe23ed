-- ===== src/Deployment/Chart.antt =====
-- internal/domain/deployment/value_objects.go: chart references.
use Prim.Native.String.{◌++◌}
use sh_mcp_go.Prelude.{
  String, Bool, true, false, ◌&&◌, not, Option, none, some, codes, trim_space, is_nil,
  if◌then◌else◌, ◌==◌,
}
use sh_mcp_go.Deployment.Errors.{Error, empty_chart_name, empty_repo_url, invalid_version}

pub data ChartSource : Type 0 where
  repo oci path : ChartSource
  other : String → ChartSource

pub record ChartReference : Type 0 where
  pub name : String
  pub repo_url : String
  pub version : String
  pub source : ChartSource

abbrev is_repo : ChartSource → Bool
is_repo repo = true
is_repo _ = false

-- `strings.TrimSpace(s) == ""`
abbrev pub is_blank : String → Bool
is_blank s = is_nil (trim_space (codes s))

-- `ChartReference.Validate`; `is_semver v` tells whether `semver.NewVersion(v)` succeeds.
unfoldable pub validate_chart : (is_semver : String → Bool) → ChartReference → Option Error
validate_chart is_semver c =
    if is_blank c.name
    then some empty_chart_name
    else if is_repo c.source && is_blank c.repo_url
    then some empty_repo_url
    else if not (c.version == "") && not (c.version == "latest") && not (is_semver c.version)
    then some (invalid_version c.version)
    else none

-- `ChartReference.String`.
unfoldable pub chart_string : ChartReference → String
chart_string c = if not (c.version == "") then c.name ++ (":" ++ c.version) else c.name
