-- ===== src/HelmClient/Indexes.antt =====
-- The methods of internal/adapters/helm/client.go on the cached indexes of repositories.
use sh_mcp_go.Prelude.{
  String, Bool, ◌||◌, Option, none, some, List, [], ◌∷◌, Result, ok, err, codes, contains, lookup,
  if◌then◌else◌, ◌==◌,
}
use sh_mcp_go.HelmClient.Errors.{Error, about_two, plain}
use sh_mcp_go.HelmClient.Releases.{ChartVersion, IndexFile}
use sh_mcp_go.HelmClient.Answers.{RepoSearchResult}
use sh_mcp_go.HelmClient.Sdk.{Sdk, World, Settings}

module _ (sdk : Sdk) (settings : Settings) where
  -- `loadRepoIndex`, which does not use its argument.
  unfoldable pub load_repo_index : (repo_url : String) → World sdk → Result Error IndexFile
  load_repo_index repo_url w = elim (sdk.glob (settings.repository_cache) (w.cache)) [
    | ok (path ∷ paths) ↦ sdk.load_index_file path (w.cache)
    | _ ↦ err (plain "no repo index files found in cache")
  ]

  -- The versions of an index entry under a name, none where they are missing.
  abbrev pub versions_of : (chart_name : String) → IndexFile → List ChartVersion
  versions_of chart_name index = elim (lookup chart_name index) [
    | none ↦ []
    | some versions ↦ versions
  ]

  unfoldable pub find_version : (constraint : String) → List ChartVersion → Option String
  find_version constraint [] = none
  find_version constraint (v ∷ versions) =
      if v.version == constraint then some (v.version) else find_version constraint versions

  unfoldable pub choose_version :
      (chart_name repo_url constraint : String) → List ChartVersion → Result Error String
  unfolding find_version
  choose_version chart_name repo_url constraint [] =
      err (about_two "chart" chart_name "not found in repo" repo_url "")
  choose_version chart_name repo_url constraint (latest ∷ versions) =
      if (constraint == "") || (constraint == "latest")
      then ok (latest.version)
      else elim (find_version constraint (latest ∷ versions)) [
        | some v ↦ ok v
        | none ↦ err (about_two "version" constraint "of chart" chart_name "not found")
      ]

  -- `ResolveVersion`; `updateRepoIndex` does nothing and returns nil.
  unfoldable pub resolve_version :
      (chart_name repo_url constraint : String) → World sdk → Result Error String
  unfolding load_repo_index choose_version
  resolve_version chart_name repo_url constraint w = elim (load_repo_index repo_url w) [
    | err e ↦ err e
    | ok index ↦ choose_version chart_name repo_url constraint (versions_of chart_name index)
  ]

  abbrev pub search_result : (repo_url chart_name : String) → ChartVersion → RepoSearchResult
  search_result repo_url chart_name latest = record {
    name = chart_name;
    chart_version = latest.version;
    app_version = latest.app_version;
    description = latest.description;
    repo_url = repo_url;
  }

  module _ (to_lower : String → String) where
    abbrev pub is_hit : (keyword chart_name : String) → Bool
    is_hit keyword chart_name =
        (keyword == "") || contains (codes (to_lower chart_name)) (codes (to_lower keyword))

    unfoldable pub search : (keyword repo_url : String) → IndexFile → List RepoSearchResult
    unfolding contains
    search keyword repo_url [] = []
    search keyword repo_url ((chart_name, []) ∷ index) = search keyword repo_url index
    search keyword repo_url ((chart_name, latest ∷ versions) ∷ index) =
        let later = search keyword repo_url index in
        if is_hit keyword chart_name
        then search_result repo_url chart_name latest ∷ later
        else later

    -- `SearchRepo`.
    unfoldable pub search_repo :
        (keyword repo_url : String) → World sdk → Result Error (List RepoSearchResult)
    unfolding load_repo_index search
    search_repo keyword repo_url w = elim (load_repo_index repo_url w) [
      | err e ↦ err e
      | ok index ↦ ok (search keyword repo_url index)
    ]
