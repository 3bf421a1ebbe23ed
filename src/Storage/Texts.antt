-- ===== src/Storage/Texts.antt =====
-- The string values of `Status` and `ChartSource` (internal/domain/deployment), which the rows hold.
use sh_mcp_go.Prelude.{String, ◌≡◌, refl, if◌then◌else◌, ◌==◌}
use sh_mcp_go.Deployment.Status.{
  Status, pending, planning, validating, deploying, succeeded, failed, rolling_back, rolled_back,
  upgrading, uninstalled,
}
use sh_mcp_go.Deployment.Chart.{ChartSource, repo, oci, path}

-- `string(status)`.
unfoldable pub status_text : Status → String
status_text pending = "PENDING"
status_text planning = "PLANNING"
status_text validating = "VALIDATING"
status_text deploying = "DEPLOYING"
status_text succeeded = "SUCCEEDED"
status_text failed = "FAILED"
status_text rolling_back = "ROLLING_BACK"
status_text rolled_back = "ROLLED_BACK"
status_text upgrading = "UPGRADING"
status_text uninstalled = "UNINSTALLED"
status_text (Status.other s) = s

-- `Status(s)`.
unfoldable pub status_of : String → Status
status_of s =
    if s == "PENDING"
    then pending
    else if s == "PLANNING"
    then planning
    else if s == "VALIDATING"
    then validating
    else if s == "DEPLOYING"
    then deploying
    else if s == "SUCCEEDED"
    then succeeded
    else if s == "FAILED"
    then failed
    else if s == "ROLLING_BACK"
    then rolling_back
    else if s == "ROLLED_BACK"
    then rolled_back
    else if s == "UPGRADING"
    then upgrading
    else if s == "UNINSTALLED"
    then uninstalled
    else Status.other s

-- `string(source)`.
unfoldable pub source_text : ChartSource → String
source_text repo = "REPO"
source_text oci = "OCI"
source_text path = "PATH"
source_text (ChartSource.other s) = s

-- `ChartSource(s)`.
unfoldable pub source_of : String → ChartSource
source_of s =
    if s == "REPO"
    then repo
    else if s == "OCI"
    then oci
    else if s == "PATH"
    then path
    else ChartSource.other s

-- The status is not spelled as an undeclared one with a declared one's string.
abbrev pub IsSpelled : Status → Type 0
IsSpelled s = status_of (status_text s) ≡ s

abbrev pub IsSpelledSource : ChartSource → Type 0
IsSpelledSource s = source_of (source_text s) ≡ s

pub declared-IsSpelled :
    IsSpelled deploying × IsSpelled succeeded × IsSpelled failed × IsSpelledSource repo
unfolding status_of status_text source_of source_text
declared-IsSpelled = (refl, refl, refl, refl)
