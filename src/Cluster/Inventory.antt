-- ===== src/Cluster/Inventory.antt =====
-- `GetInventory` of internal/application/cluster/service.go.
use sh_mcp_go.Prelude.{
  ℕ, String, ◌≡◌, ◌⊎◌, inl, inr, refl, sym, ap, Option, none, some, Option-cases, List, [], ◌∷◌,
  ◌++◌, Result, ok, err, concat,
}
use mathlib.Core.List.{Memᴰ, append_assoc, append-nil}
use sh_mcp_go.Deployment.Errors.{Error, wrapped}

-- What the method reads of Helm's release; `chart` is `none` where the chart or its metadata is nil.
pub record Metadata : Type 0 where
  pub name : String
  pub version : String
  pub app_version : String

pub record Info : Type 0 where
  pub status : String
  pub last_deployed : ℕ

pub record HelmRelease : Type 0 where
  pub name : String
  pub namespace : String
  pub chart : Option Metadata
  pub info : Option Info

-- `cluster.Release`, whose `Version` is not set.
pub record Release : Type 0 where
  pub name : String
  pub namespace : String
  pub chart : String
  pub app_version : String
  pub status : String
  pub updated_at : ℕ

-- `cluster.ClusterInfo`; the nodes and the definitions that the port reports are passed on as they are.
pub record ClusterInfo (Rest : Type 0) : Type 0 where
  pub releases : List Release
  pub rest : Rest

abbrev app_version_of : Option Metadata → String
app_version_of none = ""
app_version_of (some m) = m.app_version

abbrev chart_name_of : Option Metadata → String
chart_name_of none = ""
chart_name_of (some m) = concat (m.name ∷ "-" ∷ m.version ∷ [])

abbrev pub summary_with : HelmRelease → Info → Release
summary_with r info = record {
  name = r.name;
  namespace = r.namespace;
  chart = chart_name_of r.chart;
  app_version = app_version_of r.chart;
  status = info.status;
  updated_at = info.last_deployed;
}

-- One round of the loop: `none` is the panic on reading `r.Info.LastDeployed` of a nil `Info`.
unfoldable pub summary : HelmRelease → Option Release
summary r = elim r.info [ none ↦ none | some info ↦ some (summary_with r info) ]

abbrev append_summary : List Release → Option Release → Option (List Release)
append_summary done none = none
append_summary done (some r) = some (done ++ r ∷ [])

-- The loop over Helm's releases, from the releases that the information has.
unfoldable pub summaries : List Release → List HelmRelease → Option (List Release)
unfolding summary
summaries done [] = some done
summaries done (r ∷ rs) = elim (append_summary done (summary r)) [
  | none ↦ none
  | some more ↦ summaries more rs
]

-- How a method ends.
pub data Ending (A : Type 0) : Type 0 where
  returned : Result Error A → Ending A
  panicked : Ending A

abbrev with_releases :
    {Rest : Type 0} → ClusterInfo Rest → Option (List Release) → Ending (ClusterInfo Rest)
with_releases info none = panicked
with_releases info (some rs) = returned (ok (record info { releases = rs }))

-- `GetInventory`, by the answers of the Kubernetes and the Helm port.
unfoldable pub get_inventory :
    {Rest : Type 0}
    → (cluster_info : Result Error (ClusterInfo Rest))
    → (releases : Result Error (List HelmRelease)) → Ending (ClusterInfo Rest)
unfolding summaries
get_inventory (err e) releases = returned (err (wrapped "getting cluster info" e))
get_inventory (ok info) (err e) = returned (ok info)
get_inventory (ok info) (ok rs) = with_releases info (summaries info.releases rs)

-- The summary is of the release.
pub record Summarises (h : HelmRelease) (r : Release) : Type 0 where
  pub info : Info
  pub informed : h.info ≡ some info
  pub named : r.name ≡ h.name
  pub placed : r.namespace ≡ h.namespace
  pub state : r.status ≡ info.status
  pub deployed : r.updated_at ≡ info.last_deployed

-- Each is the summary of the one in its place.
abbrev pub Pairwise : List HelmRelease → List Release → Type 0
Pairwise [] [] = Unit
Pairwise (h ∷ hs) (r ∷ rs) = Summarises h r × Pairwise hs rs
Pairwise _ _ = ⊥

summary-cases :
    (h : HelmRelease)
    → ((summary h ≡ none) × (h.info ≡ none))
      ⊎ ((r : Release) × (summary h ≡ some r) × Summarises h r)
unfolding summary
summary-cases h = elim (Option-cases h.info) [
  | inl absent ↦ inl (rw absent, absent)
  | inr (info, present) ↦ inr (
    summary_with h info,
    rw present,
    record {
      info = info;
      informed = present;
      named = refl;
      placed = refl;
      state = refl;
      deployed = refl;
    },
  )
]

-- Some release of Helm has no information.
pub record LacksInfo (hs : List HelmRelease) : Type 0 where
  pub release : HelmRelease
  pub listed : Memᴰ release hs
  pub lacks : release.info ≡ none

summaries-cases :
    (done : List Release) (hs : List HelmRelease)
    → ((summaries done hs ≡ none) × LacksInfo hs)
      ⊎ ((rs : List Release) × (summaries done hs ≡ some (done ++ rs)) × Pairwise hs rs)
unfolding summaries
summaries-cases done [] = inr ([], ap some (sym (append-nil done)), tt)
summaries-cases done (h ∷ hs) = elim (summary-cases h) [
  | inl (stuck, lacks) ↦
      inl (rw (stuck, summaries), record { release = h; listed = Memᴰ.head refl; lacks = lacks })
  | inr (r, e, good) ↦ elim (summaries-cases (done ++ r ∷ []) hs) [
    | inl (stuck, l) ↦ inl (
      rw (e, summaries, stuck),
      record { release = l.release; listed = Memᴰ.tail l.listed; lacks = l.lacks },
    )
    | inr (rs, e', goods) ↦
        inr (r ∷ rs, rw (e, summaries, e', append_assoc done (r ∷ []) rs), (good, goods))
  ]
]

-- Where both ports answer, `GetInventory` panics, and then some release of Helm has no information, or
-- it returns the cluster's information with one summary for each release of Helm, in order, after the
-- releases that it had.
pub get_inventory_lem :
    {Rest : Type 0} (info : ClusterInfo Rest) (hs : List HelmRelease)
    → ((get_inventory (ok info) (ok hs) ≡ panicked) × LacksInfo hs)
      ⊎ ((rs : List Release) × (get_inventory (ok info) (ok hs)
            ≡ returned (ok (record info { releases = info.releases ++ rs })))
          × Pairwise hs rs)
unfolding get_inventory
get_inventory_lem info hs = elim (summaries-cases info.releases hs) [
  | inl (e, l) ↦ inl (ap (with_releases info) e, l)
  | inr (rs, e, p) ↦ inr (rs, ap (with_releases info) e, p)
]
