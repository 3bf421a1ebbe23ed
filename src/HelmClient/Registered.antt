-- ===== src/HelmClient/Registered.antt =====
-- What internal/adapters/helm/client.go has in its file of repositories.
use sh_mcp_go.Prelude.{
  String, ◌≡◌, sym, subst, ap, ◌∙◌, true, Option, none, some, List, map, ok, arith, Option-cases,
  inl, inr,
}
use mathlib.Core.List.{Memᴰ}
use mathlib.Core.List.Memᴰ
use sh_mcp_go.HelmClient.Errors.{Error}
use sh_mcp_go.HelmClient.Releases.{Entry}
use sh_mcp_go.HelmClient.Queries.{RepoEntry}
use sh_mcp_go.HelmClient.Sdk.{Sdk, SdkLaws, World, Settings}
use sh_mcp_go.HelmClient.Repositories.{
  to_entry, from_entry, loaded_or_new, register, add_repo, ensure_repo, list_repos, indexed,
}

module _ (sdk : Sdk) (settings : Settings) (laws : SdkLaws sdk) where
  indexed-file :
      (entry : Entry) (answer : sdk.Cache × Option Error) (w : World sdk)
      → (indexed sdk settings entry answer w).1 ≡ none
      → (indexed sdk settings entry answer w).0.repositories
        ≡ ok (sdk.update entry (loaded_or_new (w.repositories)))
  indexed-file entry (cache, some e) w h = ground (arith, h)
  indexed-file entry (cache, none) w h = laws.written _ _ h

  entered :
      (cache_path : Option String) (entry : Entry) (w : World sdk)
      → sdk.new_chart_repository entry ≡ none
      → register sdk settings cache_path entry w
        ≡ indexed sdk settings entry (sdk.download_index_file cache_path entry (w.cache)) w
  unfolding register
  entered cache_path entry w fine = rw (fine, register)

  register-file :
      (cache_path : Option String) (entry : Entry) (w : World sdk)
      → (register sdk settings cache_path entry w).1 ≡ none
      → (register sdk settings cache_path entry w).0.repositories
        ≡ ok (sdk.update entry (loaded_or_new (w.repositories)))
  unfolding register
  register-file cache_path entry w h = elim (Option-cases (sdk.new_chart_repository entry)) [
    | inl fine ↦
        let answer = sdk.download_index_file cache_path entry (w.cache) in
        ap (λ r. r.0.repositories) (entered cache_path entry w fine)
        ∙ indexed-file entry answer w (sym (ap (λ r. r.1) (entered cache_path entry w fine)) ∙ h)
    | inr (e, refused) ↦ ground (arith, h, refused)
  ]

  listed :
      (v : World sdk) (f : List Entry)
      → v.repositories ≡ ok f
      → list_repos sdk settings v ≡ map from_entry f
  unfolding list_repos
  listed v f h = rw h

  already_there :
      (name url : String) (v : World sdk) (f : List Entry)
      → v.repositories ≡ ok f
      → sdk.has name f ≡ true
      → ensure_repo sdk settings name url v ≡ (v, none)
  unfolding ensure_repo
  already_there name url v f h k = rw (h, k)

  -- Where the file's library updates, looks up and writes as it says, `AddRepo` without an error leads
  -- to a file in which `ListRepos` shows the entry, all of its fields included; and `ensureRepo` with
  -- that name and any URL then changes nothing and returns no error.
  pub add_repo-list_repos :
      (entry : RepoEntry) (url : String) (w : World sdk)
      → (add_repo sdk settings entry w).1 ≡ none
      → Memᴰ entry (list_repos sdk settings (add_repo sdk settings entry w).0)
        × (ensure_repo sdk settings (entry.name) url (add_repo sdk settings entry w).0
            ≡ ((add_repo sdk settings entry w).0, none))
  unfolding add_repo
  add_repo-list_repos entry url w h =
      let file = register-file (some (settings.repository_cache)) (to_entry entry) w h in
      let after : World sdk = (add_repo sdk settings entry w).0 in
      let new = sdk.update (to_entry entry) (loaded_or_new (w.repositories)) in
      let there = laws.mem-update (to_entry entry) (loaded_or_new (w.repositories)) in
      let known : sdk.has (entry.name) new ≡ true = laws.has-mem (to_entry entry) new there in
      (
        subst (λ l. Memᴰ entry l) (sym (listed after new file)) (Memᴰ.map from_entry there),
        already_there (entry.name) url after new file known,
      )
