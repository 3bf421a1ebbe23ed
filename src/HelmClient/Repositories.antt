-- ===== src/HelmClient/Repositories.antt =====
-- The methods of internal/adapters/helm/client.go on repositories and their indexes.
use sh_mcp_go.Prelude.{
  String, false, not, Option, none, some, List, [], ◌∷◌, ◌++◌, map, Result, ok, err, if◌then◌else◌,
  ◌==◌,
}
use sh_mcp_go.HelmClient.Errors.{Error, Errors, during, about, while, joined, one, more}
use sh_mcp_go.HelmClient.Releases.{Entry}
use sh_mcp_go.HelmClient.Queries.{RepoEntry}
use sh_mcp_go.HelmClient.Sdk.{Sdk, World, Settings}

-- The SDK's entry for one of the port, and back.
abbrev pub to_entry : RepoEntry → Entry
to_entry entry = record {
  name = entry.name;
  url = entry.url;
  username = entry.username;
  password = entry.password;
  ca_file = entry.ca_file;
  cert_file = entry.cert_file;
  key_file = entry.key_file;
  insecure_skip_tls_verify = entry.insecure_skip_tls_verify;
  pass_credentials_all = entry.pass_credentials_all;
}

abbrev pub from_entry : Entry → RepoEntry
from_entry r = record {
  name = r.name;
  url = r.url;
  username = r.username;
  password = r.password;
  ca_file = r.ca_file;
  cert_file = r.cert_file;
  key_file = r.key_file;
  insecure_skip_tls_verify = r.insecure_skip_tls_verify;
  pass_credentials_all = r.pass_credentials_all;
}

-- `&repov1.Entry{Name: name, URL: url}`.
abbrev pub plain_entry : (name url : String) → Entry
plain_entry name url = record {
  name = name;
  url = url;
  username = "";
  password = "";
  ca_file = "";
  cert_file = "";
  key_file = "";
  insecure_skip_tls_verify = false;
  pass_credentials_all = false;
}

-- `LoadFile`, or `NewFile` where it fails.
abbrev pub loaded_or_new : Result Error (List Entry) → List Entry
loaded_or_new (err e) = []
loaded_or_new (ok f) = f

-- The errors that were collected, joined; nil where there are none.
unfoldable pub join : List Error → Option Errors
join [] = none
join (e ∷ es) = elim (join es) [ none ↦ some (one e) | some rest ↦ some (more e rest) ]

unfoldable pub join_errors : List Error → Option Error
unfolding join
join_errors es = elim (join es) [ none ↦ none | some all ↦ some (joined all) ]

abbrev pub cannot_load : Error → Error
cannot_load e = while "loading repo config" e

module _ (sdk : Sdk) (settings : Settings) where
  abbrev pub saved : Result Error (List Entry) × Option Error → World sdk → World sdk × Option Error
  saved (file, e) w = (record w { repositories = file }, e)

  abbrev pub indexed : Entry → sdk.Cache × Option Error → World sdk → World sdk × Option Error
  indexed entry (cache, some e) w =
      (record w { cache = cache }, some (during "downloading index for" (entry.url) e))
  indexed entry (cache, none) w =
      saved (sdk.write_file (sdk.update entry (loaded_or_new (w.repositories))) (w.repositories))
        (record w { cache = cache })

  -- The steps that `AddRepo` and `ensureRepo` share: download the index, put the entry into the file.
  unfoldable pub register :
      (cache_path : Option String) → Entry → World sdk → World sdk × Option Error
  register cache_path entry w = elim (sdk.new_chart_repository entry) [
    | some e ↦ (w, some e)
    | none ↦ indexed entry (sdk.download_index_file cache_path entry (w.cache)) w
  ]

  -- `AddRepo`.
  unfoldable pub add_repo : RepoEntry → World sdk → World sdk × Option Error
  unfolding register
  add_repo entry w = register (some (settings.repository_cache)) (to_entry entry) w

  -- `ensureRepo`.
  unfoldable pub ensure_repo : (name url : String) → World sdk → World sdk × Option Error
  unfolding register
  ensure_repo name url w =
      if sdk.has name (loaded_or_new (w.repositories))
      then (w, none)
      else register none (plain_entry name url) w

  -- `RemoveRepo`.
  unfoldable pub remove_repo : (name : String) → World sdk → World sdk × Option Error
  remove_repo name w = elim (w.repositories) [
    | err e ↦ (w, some (cannot_load e))
    | ok f ↦
        if not (sdk.has name f)
        then (w, some (about "repository" name "not found"))
        else saved (sdk.write_file (sdk.remove name f) (w.repositories)) w
  ]

  -- One turn of the loop of `UpdateRepos`: the cache after it, and the errors it adds.
  abbrev pub refreshed : Entry → sdk.Cache × Option Error → sdk.Cache × List Error
  refreshed entry (cache, none) = (cache, [])
  refreshed entry (cache, some e) = (cache, during "updating repo" (entry.name) e ∷ [])

  unfoldable pub refresh : Entry → sdk.Cache → sdk.Cache × List Error
  refresh entry cache = elim (sdk.new_chart_repository entry) [
    | some e ↦ (cache, during "repo" (entry.name) e ∷ [])
    | none ↦
        refreshed entry (sdk.download_index_file (some (settings.repository_cache)) entry cache)
  ]

  unfoldable pub refresh_all : List Entry → sdk.Cache → sdk.Cache × List Error
  unfolding refresh
  refresh_all [] cache = (cache, [])
  refresh_all (entry ∷ entries) cache =
      let (after, errors) = refresh entry cache in
      let (last, more_errors) = refresh_all entries after in (last, errors ++ more_errors)

  -- `UpdateRepos`.
  unfoldable pub update_repos : World sdk → World sdk × Option Error
  unfolding refresh_all join_errors
  update_repos w = elim (w.repositories) [
    | err e ↦ (w, some (cannot_load e))
    | ok f ↦
        let (cache, errors) = refresh_all f (w.cache) in
        (record w { cache = cache }, join_errors errors)
  ]

  -- The loop of `UpdateRepo`.
  unfoldable pub update_named : (name : String) → List Entry → World sdk → World sdk × Option Error
  update_named name [] w = (w, some (about "repository" name "not found"))
  update_named name (entry ∷ entries) w =
      let later = update_named name entries w in
      if entry.name == name
      then elim (sdk.new_chart_repository entry) [
        | some e ↦ (w, some (during "repo" name e))
        | none ↦
            let (cache, answer) =
              sdk.download_index_file (some (settings.repository_cache)) entry (w.cache) in
            (
              record w { cache = cache },
              elim answer [ none ↦ none | some e ↦ some (during "updating repo" name e) ],
            )
      ]
      else later

  -- `UpdateRepo`.
  unfoldable pub update_repo : (name : String) → World sdk → World sdk × Option Error
  unfolding update_named
  update_repo name w = elim (w.repositories) [
    | err e ↦ (w, some (cannot_load e))
    | ok f ↦ update_named name f w
  ]

  -- `ListRepos`, whose error is always nil.
  unfoldable pub list_repos : World sdk → List RepoEntry
  list_repos w = elim (w.repositories) [ err e ↦ [] | ok f ↦ map from_entry f ]
