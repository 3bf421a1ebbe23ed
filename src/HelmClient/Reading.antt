-- ===== src/HelmClient/Reading.antt =====
-- The methods of internal/adapters/helm/client.go that read releases.
use sh_mcp_go.Prelude.{
  ℕ, String, Bool, ◌||◌, none, some, List, [], ◌∷◌, map, Result, ok, err, Any, if◌then◌else◌, ◌==◌,
}
use sh_mcp_go.HelmClient.Errors.{Error, about}
use sh_mcp_go.HelmClient.Releases.{Hook, Release, RawRelease, release, other_release}
use sh_mcp_go.HelmClient.Queries.{HelmListRequest}
use sh_mcp_go.HelmClient.Answers.{HookInfo}
use sh_mcp_go.HelmClient.Actions.{
  ListAction, StateFlag, deployed, failed, uninstalled, uninstalling, pending, superseded, all,
}
use sh_mcp_go.HelmClient.Sdk.{Sdk, World}

-- The releases of a list whose type is the asserted one.
unfoldable pub releases_of : List RawRelease → List Release
releases_of [] = []
releases_of (release rel ∷ raws) = rel ∷ releases_of raws
releases_of (other_release ∷ raws) = releases_of raws

abbrev pub one_release : (what name : String) → RawRelease → Result Error Release
one_release what name (release rel) = ok rel
one_release what name other_release = err (about what name "unexpected release type")

abbrev pub hook_info : Hook → HookInfo
hook_info hook = record {
  name = hook.name;
  kind = hook.kind;
  path = hook.path;
  events = hook.events;
  status = hook.phase;
  weight = hook.weight;
}

-- The state that `ListReleasesFiltered` asks for, by the mask in lower case.
unfoldable pub state_flag : (lower_mask : String) → StateFlag
state_flag mask =
    if mask == "deployed"
    then deployed
    else if mask == "failed"
    then failed
    else if mask == "uninstalled"
    then uninstalled
    else if mask == "uninstalling"
    then uninstalling
    else if mask == "pending"
    then pending
    else if mask == "superseded"
    then superseded
    else all

unfoldable pub list_action : (to_lower : String → String) → HelmListRequest → ListAction
unfolding state_flag
list_action to_lower req = record {
  config = req.namespace;
  all_namespaces = req.all_namespaces || (req.namespace == "");
  state = state_flag (to_lower (req.state_mask));
  filter = req.filter;
  selector = req.selector;
  limit = req.limit;
  offset = req.offset;
  by_date = req.sort_by == "date";
  sort_reverse = req.sort_reverse;
}

-- The action of `ListReleases`, over a new one.
unfoldable pub plain_list_action : (fresh : ListAction) → (namespace : String) → ListAction
plain_list_action fresh namespace = record fresh {
  config = namespace;
  all_namespaces = namespace == "";
  state = all;
}

module _ (sdk : Sdk) where
  -- `actionConfig`, and what follows it where nothing changes.
  unfoldable pub configured : {A : Type 0} → (namespace : String) → Result Error A → Result Error A
  configured namespace next = elim (sdk.init namespace) [ some e ↦ err e | none ↦ next ]

  abbrev pub assert_release : (what name : String) → Result Error RawRelease → Result Error Release
  assert_release what name (ok raw) = one_release what name raw
  assert_release what name (err e) = err e

  abbrev pub assert_releases : Result Error (List RawRelease) → Result Error (List Release)
  unfolding releases_of
  assert_releases (ok raws) = ok (releases_of raws)
  assert_releases (err e) = err e

  -- `GetRelease`.
  unfoldable pub get_release : (name namespace : String) → World sdk → Result Error Release
  unfolding configured
  get_release name namespace w =
      configured namespace
        (assert_release "helm get" name (sdk.run_get namespace none name (w.cluster)))

  -- `GetReleaseRevision`.
  unfoldable pub get_release_revision :
      (name namespace : String) → (version : ℕ) → World sdk → Result Error Release
  unfolding configured
  get_release_revision name namespace version w = configured namespace (
      assert_release "helm get revision" name
        (sdk.run_get namespace (some version) name (w.cluster)))

  -- `ListReleases`; `fresh` is a new action.
  unfoldable pub list_releases :
      (fresh : ListAction) → (namespace : String) → World sdk → Result Error (List Release)
  unfolding configured plain_list_action releases_of
  list_releases fresh namespace w =
      configured namespace
        (assert_releases (sdk.run_list (plain_list_action fresh namespace) (w.cluster)))

  -- `ListReleasesFiltered`.
  unfoldable pub list_releases_filtered :
      (to_lower : String → String) → HelmListRequest → World sdk → Result Error (List Release)
  unfolding configured list_action releases_of
  list_releases_filtered to_lower req w =
      configured (req.namespace)
        (assert_releases (sdk.run_list (list_action to_lower req) (w.cluster)))

  -- `GetHistory`.
  unfoldable pub get_history :
      (name namespace : String) → (max_revisions : ℕ) → World sdk → Result Error (List Release)
  unfolding configured releases_of
  get_history name namespace max_revisions w =
      configured namespace
        (assert_releases (sdk.run_history namespace max_revisions name (w.cluster)))

  abbrev pub on_release : {A : Type 0} → (Release → A) → Result Error Release → Result Error A
  on_release f (ok rel) = ok (f rel)
  on_release f (err e) = err e

  abbrev pub notes_of : Release → String
  notes_of rel = elim (rel.info) [ none ↦ "" | some info ↦ info.notes ]

  -- `GetReleaseNotes`.
  unfoldable pub get_release_notes : (name namespace : String) → World sdk → Result Error String
  unfolding get_release
  get_release_notes name namespace w = on_release notes_of (get_release name namespace w)

  -- `GetReleaseManifest`.
  unfoldable pub get_release_manifest : (name namespace : String) → World sdk → Result Error String
  unfolding get_release
  get_release_manifest name namespace w =
      on_release (λ rel. rel.manifest) (get_release name namespace w)

  -- `GetReleaseHooks`.
  unfoldable pub get_release_hooks :
      (name namespace : String) → World sdk → Result Error (List HookInfo)
  unfolding get_release
  get_release_hooks name namespace w =
      on_release (λ rel. map hook_info (rel.hooks)) (get_release name namespace w)

  -- `GetReleaseValues`, by the SDK's action.
  unfoldable pub get_release_values :
      (run_get_values : (config : String)
        → (all_values : Bool) → (name : String) → sdk.Cluster
        → Result Error (List (String × Any)))
      → (name namespace : String) → (all_values : Bool) → World sdk
      → Result Error (List (String × Any))
  unfolding configured
  get_release_values run_get_values name namespace all_values w =
      configured namespace (run_get_values namespace all_values name (w.cluster))
