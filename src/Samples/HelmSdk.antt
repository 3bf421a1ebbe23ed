-- ===== src/Samples/HelmSdk.antt =====
-- A small SDK for internal/adapters/helm/client.go: the cluster is the list of its releases, the cache
-- that of the repositories that were downloaded.
use sh_mcp_go.Prelude.{
  ap, subst, ◌∙◌, Bool-cases, ℕ, zero, suc, ◌≡◌, refl, sym, String, Bool, true, false, Option, none,
  some, List, [], ◌∷◌, ok, err, arith, if◌then◌else◌, ◌==◌, eq_iff, eq_refl, ◌⊎◌, inl, inr,
}
use mathlib.Core.List.{Memᴰ}
use mathlib.Core.List.Memᴰ
use sh_mcp_go.Retry.{RetryGo, RetryLaws}
use sh_mcp_go.HelmClient.Errors.{external}
use sh_mcp_go.HelmClient.Releases.{Release, release, chart, Chart, Entry}
use sh_mcp_go.HelmClient.Actions.{
  DryRunStrategy, dry_run_none, dry_run_client, hook_only, InstallAction,
}
use sh_mcp_go.HelmClient.Sdk.{Sdk, SdkLaws, World, Settings}

module _ {S E : Type 0} where
  abbrev again : S × Option E → (next : S → S × Option E) → S × Option E
  again (s, none) next = (s, none)
  again (s, some e) next = next s

  -- Up to n + 1 calls, until one returns no error.
  abbrev tries : ℕ → (S → S × Option E) → S → S × Option E
  tries zero f s = f s
  tries (suc n) f s = again (f s) (tries n f)

  again-only_calls :
      (P : S → Type 0) (r : S × Option E) (next : S → S × Option E)
      → P r.0
      → ((s : S) → P s → P (next s).0)
      → P (again r next).0
  again-only_calls P (s, none) next p h = p
  again-only_calls P (s, some e) next p h = h s p

  again-success :
      (r : S × Option E) (next : S → S × Option E)
      → (again r next).1 ≡ none
      → ((r.1 ≡ none) × ((again r next).0 ≡ r.0))
        ⊎ (((next r.0).1 ≡ none) × ((again r next).0 ≡ (next r.0).0))
  again-success (s, none) next h = inl (refl, refl)
  again-success (s, some e) next h = inr (h, refl)

  tries-only_calls :
      (P : S → Type 0) (n : ℕ) (f : S → S × Option E) (s : S)
      → ((s : S) → P s → P (f s).0)
      → P s
      → P (tries n f s).0
  tries-only_calls P zero f s h p = h s p
  tries-only_calls P (suc n) f s h p =
      again-only_calls P (f s) (tries n f) (h s p) (λ t q. tries-only_calls P n f t h q)

  tries-success :
      (n : ℕ) (f : S → S × Option E) (s : S)
      → (tries n f s).1 ≡ none
      → (before : S) × ((f before).1 ≡ none) × ((tries n f s).0 ≡ (f before).0)
  tries-success zero f s h = (s, h, refl)
  tries-success (suc n) f s h = elim (again-success (f s) (tries n f) h) [
    | inl (fine, same) ↦ (s, fine, same)
    | inr (fine, same) ↦
        let (before, good, last) = tries-success n f (f s).0 fine in (before, good, same ∙ last)
  ]

abbrev pub three_tries : RetryGo ℕ
three_tries = record { back_off_delay = 0; warn = 1; run = λ options f s. tries 2 f s }

pub three_tries_laws : RetryLaws three_tries
three_tries_laws = record {
  only_calls = λ P options f s h p. tries-only_calls P 2 f s h p;
  success = λ options f s h. tries-success 2 f s h;
}

abbrev has : (name : String) → List Entry → Bool
has name [] = false
has name (e ∷ f) = if e.name == name then true else has name f

abbrev update : Entry → List Entry → List Entry
update new [] = new ∷ []
update new (e ∷ f) = if e.name == new.name then new ∷ f else e ∷ update new f

abbrev remove : (name : String) → List Entry → List Entry
remove name [] = []
remove name (e ∷ f) = let later = remove name f in if e.name == name then later else e ∷ later

has-update_lem :
    (name : String) (new : Entry) (f : List Entry)
    → has name (update new f) ≡ (if new.name == name then true else has name f)
has-update_lem name new [] = refl
has-update_lem name new (e ∷ f) =
    let later = has-update_lem name new f in
    ground (later, eq_iff (e.name) name, eq_iff (e.name) (new.name), eq_iff (new.name) name, arith)

has-remove_lem :
    (name gone : String) (f : List Entry)
    → has name (remove gone f) ≡ (if gone == name then false else has name f)
has-remove_lem name gone [] = ground arith
has-remove_lem name gone (e ∷ f) =
    let later = has-remove_lem name gone f in
    ground (later, eq_iff (e.name) name, eq_iff (e.name) gone, eq_iff gone name, arith)

has-mem_lem : (e : Entry) (f : List Entry) → Memᴰ e f → has (e.name) f ≡ true
has-mem_lem e [] m = elim m [ ]
has-mem_lem e (x ∷ f) m = elim (Memᴰ.cases_cons m) [
  | inl same ↦ rw (sym same, eq_refl (e.name))
  | inr later ↦ let there = has-mem_lem e f later in ground (there, arith)
]

mem-update_lem : (new : Entry) (f : List Entry) → Memᴰ new (update new f)
mem-update_lem new [] = Memᴰ.head refl
mem-update_lem new (e ∷ f) = elim (Bool-cases (e.name == new.name)) [
  | inl same ↦ subst (λ l. Memᴰ new l) (sym (update-front same)) (Memᴰ.head refl)
  | inr other ↦
      subst (λ l. Memᴰ new l) (sym (update-later other)) (Memᴰ.tail (mem-update_lem new f))
]
  where
    update-front : e.name == new.name ≡ true → update new (e ∷ f) ≡ new ∷ f
    update-front h = rw h

    update-later : e.name == new.name ≡ false → update new (e ∷ f) ≡ e ∷ update new f
    update-later h = rw h

-- A chart is loaded from any path; a run that is not dry adds the release.
abbrev pub web_chart : Chart
web_chart = record { metadata = none; values = none; files = [] }

abbrev released : (name manifest : String) → Release
released name manifest = record {
  name = name;
  version = 1;
  manifest = manifest;
  info = none;
  hooks = [];
  chart = none;
}

abbrev after : DryRunStrategy → (name : String) → List String → List String
after dry_run_none name c = name ∷ c
after dry_run_client name c = c

abbrev fresh : InstallAction
fresh = record {
  config = none;
  release_name = "";
  namespace = "";
  version = "";
  create_namespace = false;
  wait_for_jobs = false;
  rollback_on_failure = false;
  labels = [];
  description = "";
  generate_name = false;
  name_template = "";
  disable_hooks = false;
  replace = false;
  skip_crds = false;
  sub_notes = false;
  skip_schema_validation = false;
  disable_open_api_validation = false;
  server_side_apply = true;
  force_conflicts = false;
  take_ownership = false;
  include_crds = false;
  dry_run_strategy = dry_run_none;
  wait_strategy = hook_only;
  timeout = 0;
}

abbrev pub small_sdk : Sdk
small_sdk = record {
  Cluster = List String;
  Cache = List String;
  Func = ℕ;
  retry_go = three_tries;
  init = λ namespace. none;
  new_install = fresh;
  run_install = λ action chart values c. (
    after (action.dry_run_strategy) (action.release_name) c,
    ok (release (released (action.release_name) "kind: Pod")),
  );
  run_upgrade = λ action name chart values c.
      (after (action.dry_run_strategy) name c, ok (release (released name "kind: Pod")));
  run_rollback = λ action name c. (c, none);
  run_uninstall = λ action name c. (c, none);
  run_get = λ config version name c. ok (release (released name ""));
  run_list = λ action c. ok [];
  run_history = λ config max name c. ok [];
  run_testing = λ action name c. (c, ok (release (released name "")));
  hook_test = "test";
  hook_phase_succeeded = "Succeeded";
  hook_phase_failed = "Failed";
  locate_chart = λ options name f cache. (cache, ok name);
  load = λ path cache. ok (chart web_chart);
  has = has;
  update = update;
  remove = remove;
  write_file = λ f old. (ok f, none);
  new_chart_repository = λ entry. none;
  download_index_file = λ path entry cache. (entry.url ∷ cache, none);
  glob = λ directory cache. ok cache;
  load_index_file = λ path cache. ok [];
}

pub small_sdk_laws : SdkLaws small_sdk
small_sdk_laws = record {
  dry_install = λ action chart values c h. ap (λ s. after s (action.release_name) c) h;
  dry_upgrade = λ action name chart values c h. ap (λ s. after s name c) h;
  has-update = has-update_lem;
  has-remove = has-remove_lem;
  has-mem = has-mem_lem;
  mem-update = mem-update_lem;
  written = λ f old h. refl;
}

abbrev pub settings : Settings
settings = record { default_timeout = 300000000000; repository_cache = "cache" }

abbrev pub world : World small_sdk
world = record { cluster = "db" ∷ []; cache = []; repositories = err (external "no such file") }
