-- ===== src/HelmClient/Details.antt =====
-- `GetReleaseMetadata`, `GetReleaseStatusWithResources` and `LintChart` of
-- internal/adapters/helm/client.go.
use sh_mcp_go.Prelude.{
  ℕ, String, Option, none, some, List, [], ◌∷◌, map, Result, ok, err, Any, eqb, is_nil, trim_space,
  if◌then◌else◌,
}
use sh_mcp_go.HelmClient.Errors.{Error, about}
use sh_mcp_go.HelmClient.Releases.{Release, RawRelease, release, other_release}
use sh_mcp_go.HelmClient.Answers.{ReleaseMetadata, ReleaseStatusDetails, LintMessage, LintResult}
use sh_mcp_go.HelmClient.Sdk.{Sdk, World}
use sh_mcp_go.HelmClient.Reading.{configured}

-- A code point in front of the first part.
abbrev pub extend_first : ℕ → List (List ℕ) → List (List ℕ)
extend_first c [] = (c ∷ []) ∷ []
extend_first c (part ∷ parts) = (c ∷ part) ∷ parts

-- `strings.Split(s, ",")`, on code points.
unfoldable pub split_commas : (s : List ℕ) → List (List ℕ)
split_commas [] = [] ∷ []
split_commas (c ∷ s) =
    let later = split_commas s in if eqb c 44 then [] ∷ later else extend_first c later

unfoldable pub non_empty_parts : List (List ℕ) → List (List ℕ)
unfolding trim_space
non_empty_parts [] = []
non_empty_parts (d ∷ parts) =
    let later = non_empty_parts parts in
    let trimmed = trim_space d in if is_nil trimmed then later else trimmed ∷ later

-- The names of the dependencies, by `FormattedDepNames`.
unfoldable pub dependency_names : (formatted : List ℕ) → List (List ℕ)
unfolding split_commas non_empty_parts
dependency_names formatted =
    if is_nil formatted then [] else non_empty_parts (split_commas formatted)

-- The SDK's metadata of a release.
pub record Meta : Type 0 where
  pub name : String
  pub chart : String
  pub version : String
  pub app_version : String
  pub annotations : List (String × String)
  pub labels : List (String × String)
  pub formatted_dep_names : List ℕ
  pub namespace : String
  pub revision : ℕ
  pub status : String
  pub deployed_at : String
  pub apply_method : String

-- A message of the SDK's lint; `severity` is an `int`, `error_text` that of its error, if any.
pub record SdkLintMessage : Type 0 where
  pub severity : ℕ
  pub path : String
  pub error_text : Option String

pub record SdkLintResult : Type 0 where
  pub total_charts_linted : ℕ
  pub messages : List SdkLintMessage
  pub errors : List (Option String)

-- `severityNames[msg.Severity]`, where the index is in range.
unfoldable pub severity_name : ℕ → String
severity_name severity =
    if eqb severity 1
    then "INFO"
    else if eqb severity 2
    then "WARNING"
    else if eqb severity 3
    then "ERROR"
    else "UNKNOWN"

abbrev pub lint_message : SdkLintMessage → LintMessage
unfolding severity_name
lint_message msg = record {
  severity = severity_name (msg.severity);
  path = msg.path;
  message = elim (msg.error_text) [ none ↦ "" | some text ↦ text ];
}

unfoldable pub error_texts : List (Option String) → List String
error_texts [] = []
error_texts (none ∷ errors) = error_texts errors
error_texts (some text ∷ errors) = text ∷ error_texts errors

-- `LintChart`, whose error is always nil, by what the SDK's lint returns.
unfoldable pub lint_chart : SdkLintResult → LintResult
unfolding error_texts
lint_chart result = record {
  total_charts = result.total_charts_linted;
  messages = map lint_message (result.messages);
  errors = error_texts (result.errors);
}

-- `to_text` is the text of code points.
abbrev pub release_metadata : (to_text : List ℕ → String) → Meta → ReleaseMetadata
unfolding dependency_names
release_metadata to_text meta = record {
  name = meta.name;
  chart = meta.chart;
  version = meta.version;
  app_version = meta.app_version;
  annotations = meta.annotations;
  labels = meta.labels;
  dependencies = map to_text (dependency_names (meta.formatted_dep_names));
  namespace = meta.namespace;
  revision = meta.revision;
  status = meta.status;
  deployed_at = meta.deployed_at;
  apply_method = meta.apply_method;
}

-- `resources_json` is a value through JSON, into a map; `time_text` is `Time.String`.
module _ (resources_json : Any → List (String × Any)) (time_text : ℕ → String) where
  abbrev pub no_details : (name namespace : String) → (revision : ℕ) → ReleaseStatusDetails
  no_details name namespace revision = record {
    release_name = name;
    namespace = namespace;
    revision = revision;
    status = "";
    notes = "";
    deployed_at = "";
    resources = [];
  }

  unfoldable pub status_details : (name namespace : String) → Release → ReleaseStatusDetails
  status_details name namespace rel = elim (rel.info) [
    | none ↦ no_details name namespace (rel.version)
    | some info ↦ record (no_details name namespace (rel.version)) {
      status = info.status;
      notes = info.notes;
      deployed_at = time_text (info.last_deployed);
      resources = elim (info.resources) [ none ↦ [] | some value ↦ resources_json value ];
    }
  ]

module _ (sdk : Sdk) where
  abbrev pub metadata_result :
      (to_text : List ℕ → String) → Result Error Meta → Result Error ReleaseMetadata
  metadata_result to_text (ok meta) = ok (release_metadata to_text meta)
  metadata_result to_text (err e) = err e

  -- `GetReleaseMetadata`, by the SDK's action.
  unfoldable pub get_release_metadata :
      (to_text : List ℕ → String)
      → (run_get_metadata : (config : String)
          → (version : ℕ) → (name : String) → sdk.Cluster
          → Result Error Meta)
      → (name namespace : String) → (version : ℕ) → World sdk
      → Result Error ReleaseMetadata
  unfolding configured dependency_names
  get_release_metadata to_text run_get_metadata name namespace version w =
      configured sdk namespace
        (metadata_result to_text (run_get_metadata namespace version name (w.cluster)))

  abbrev pub status_result :
      (resources_json : Any → List (String × Any))
      → (time_text : ℕ → String) → (name namespace : String) → Result Error RawRelease
      → Result Error ReleaseStatusDetails
  unfolding status_details
  status_result resources_json time_text name namespace (ok (release rel)) =
      ok (status_details resources_json time_text name namespace rel)
  status_result resources_json time_text name namespace (ok other_release) =
      err (about "helm status" name "unexpected release type")
  status_result resources_json time_text name namespace (err e) = err e

  -- `GetReleaseStatusWithResources`, by the SDK's action.
  unfoldable pub get_release_status_with_resources :
      (resources_json : Any → List (String × Any))
      → (time_text : ℕ → String)
      → (run_status : (config : String)
          → (version : ℕ) → (name : String) → sdk.Cluster
          → Result Error RawRelease)
      → (name namespace : String) → (version : ℕ) → World sdk
      → Result Error ReleaseStatusDetails
  unfolding configured status_details
  get_release_status_with_resources resources_json time_text run_status name namespace version w =
      configured sdk namespace (
        status_result resources_json time_text name namespace
          (run_status namespace version name (w.cluster)))
