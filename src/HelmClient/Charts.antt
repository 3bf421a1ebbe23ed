-- ===== src/HelmClient/Charts.antt =====
-- The methods of internal/adapters/helm/client.go that load a chart and show it.
use sh_mcp_go.Prelude.{
  String, Bool, ◌||◌, none, some, List, [], ◌∷◌, map, Result, ok, err, Any, if◌then◌else◌, ◌==◌,
}
use sh_mcp_go.HelmClient.Errors.{Error, during, about, while}
use sh_mcp_go.HelmClient.Releases.{Metadata, Dependency, File, Chart, RawChart, chart, other_chart}
use sh_mcp_go.HelmClient.Answers.{ChartDetails, DependencyEntry}
use sh_mcp_go.HelmClient.Actions.{ChartPathOptions}
use sh_mcp_go.HelmClient.Sdk.{Sdk, World, Settings}
use sh_mcp_go.HelmClient.Calls.{then_do, unwrapped}
use sh_mcp_go.HelmClient.Repositories.{ensure_repo}

-- `ShowChart` looks for this file.
unfoldable pub show_readme : (is_readme : String → Bool) → List File → String
show_readme is_readme [] = ""
show_readme is_readme (f ∷ files) =
    if is_readme (f.name) then f.content else show_readme is_readme files

abbrev pub chart_values : Chart → List (String × Any)
chart_values c = elim (c.values) [ none ↦ [] | some values ↦ values ]

abbrev pub chart_details :
    (metadata_json : Metadata → List (String × Any)) (is_readme : String → Bool)
    → Chart
    → ChartDetails
unfolding show_readme
chart_details metadata_json is_readme c = record {
  metadata = elim (c.metadata) [ none ↦ [] | some m ↦ metadata_json m ];
  default_values = chart_values c;
  readme = show_readme is_readme (c.files);
}

abbrev pub dependency_entry : Dependency → DependencyEntry
dependency_entry dep = record {
  name = dep.name;
  version = dep.version;
  repository = dep.repository;
  condition = dep.condition;
  tags = dep.tags;
  alias = dep.alias;
}

module _ (sdk : Sdk) (settings : Settings) where
  abbrev pub loaded :
      (name : String)
      → sdk.Cache × Result Error String
      → World sdk
      → World sdk × Result Error RawChart
  loaded name (cache, err e) w = (record w { cache = cache }, err (during "locating chart" name e))
  loaded name (cache, ok path) w = (record w { cache = cache }, sdk.load path cache)

  -- `loadChart`: the error of `ensureRepo` is only logged.
  unfoldable pub load_chart :
      (name repo_url version : String) → World sdk → World sdk × Result Error RawChart
  load_chart name repo_url version w =
      let options : ChartPathOptions = record { repo_url = repo_url; version = version } in
      let ensured : World sdk =
        if repo_url == "" then w else (ensure_repo sdk settings name repo_url w).0 in
      loaded name (sdk.locate_chart options name (ensured.repositories) (ensured.cache)) ensured

  -- A chart that is read: its type is asserted.
  abbrev pub read :
      {A : Type 0}
      → (name : String) → (Chart → Result Error A)
      → RawChart
      → World sdk
      → World sdk × Result Error A
  read name f (chart c) w = (w, f c)
  read name f other_chart w = (w, err (about "chart" name "unexpected chart type"))

  unfoldable pub with_chart :
      {A : Type 0}
      → (failed : Error → Error) → (Chart → Result Error A)
      → (name repo_url version : String) → World sdk
      → World sdk × Result Error A
  unfolding then_do
  with_chart failed f name repo_url version w =
      then_do (load_chart name repo_url version w) failed (read name f)

  -- `ValidateChart`, with the chart's own `Validate`.
  unfoldable pub validate_chart :
      (validate : Chart → Result {0} Error Unit)
      → (name repo_url version : String) → World sdk
      → World sdk × Result {0} Error Unit
  unfolding with_chart
  validate_chart validate = with_chart (while "loading chart for validation") validate

  -- `GenerateValues`.
  unfoldable pub generate_values :
      (name repo_url version : String) → World sdk → World sdk × Result Error (List (String × Any))
  unfolding with_chart
  generate_values = with_chart unwrapped (λ c. ok (chart_values c))

  -- `ShowChart`; `metadata_json` is the metadata through JSON, `equal_fold` is `strings.EqualFold`.
  unfoldable pub show_chart :
      (metadata_json : Metadata → List (String × Any))
      → (equal_fold : String → String → Bool) → (name repo_url version : String) → World sdk
      → World sdk × Result Error ChartDetails
  unfolding with_chart
  show_chart metadata_json equal_fold =
      with_chart unwrapped (λ c. ok (chart_details metadata_json (λ f. equal_fold f "README.md") c))

  -- `ShowChartValues`.
  unfoldable pub show_chart_values :
      (name repo_url version : String) → World sdk → World sdk × Result Error (List (String × Any))
  unfolding with_chart
  show_chart_values = with_chart unwrapped (λ c. ok (chart_values c))

  -- `ShowChartReadme`.
  unfoldable pub show_chart_readme :
      (to_lower : String → String)
      → (name repo_url version : String) → World sdk
      → World sdk × Result Error String
  unfolding with_chart show_readme
  show_chart_readme to_lower = with_chart unwrapped (λ c. ok (
      show_readme
        (λ f.
          let lower = to_lower f in
          (lower == "readme.md") || (lower == "readme.txt") || (lower == "readme"))
        (c.files)))

  -- `ShowChartCRDs`, with the data of the chart's `CRDObjects`.
  unfoldable pub show_chart_crds :
      (crd_objects : Chart → List String)
      → (name repo_url version : String) → World sdk
      → World sdk × Result Error (List String)
  unfolding with_chart
  show_chart_crds crd_objects = with_chart unwrapped (λ c. ok (crd_objects c))

  abbrev pub dependencies : Chart → List DependencyEntry
  dependencies c = elim (c.metadata) [ none ↦ [] | some m ↦ map dependency_entry (m.dependencies) ]

  -- `ListChartDependencies`.
  unfoldable pub list_chart_dependencies :
      (name repo_url version : String) → World sdk → World sdk × Result Error (List DependencyEntry)
  unfolding with_chart
  list_chart_dependencies = with_chart unwrapped (λ c. ok (dependencies c))
