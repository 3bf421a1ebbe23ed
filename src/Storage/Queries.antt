-- ===== src/Storage/Queries.antt =====
-- What the searches of internal/adapters/storage/sqlite/repository.go find.
use sh_mcp_go.Prelude.{
  String, ◌≡◌, ◌↔◌, refl, sym, ap, ◌∙◌, true, some, List, [], ◌∷◌, map, ok, ok_inj, and_then-ok,
  ◌&&◌, &&_parts, ◌==◌, eq_iff, subst,
}
use mathlib.Core.List.{Memᴰ}
use sh_mcp_go.Deployment.Entity.{Deployment}
use sh_mcp_go.Storage.Database.{Row, Database, Codec}
use sh_mcp_go.Storage.Repository.{
  scan_deployment, scan_first, find_by_release_name, list_by_namespace,
}
use sh_mcp_go.Application.Rules.{IsOf}

module _ (codec : Codec) (db : Database) where
  open db use {State, row, query}

  scan-IsOf :
      (r : Row) (name ns : String)
      → (r.release_name == name && r.namespace == ns) ≡ true
      → IsOf name ns (scan_deployment codec r)
  unfolding scan_deployment
  scan-IsOf r name ns h =
      let (a, b) = &&_parts (r.release_name == name) (r.namespace == ns) h in
      record { named = (eq_iff r.release_name name).0 a; placed = (eq_iff r.namespace ns).0 b }

  -- `FindByReleaseName` finds only deployments of the release and the namespace that are asked for.
  pub find_by_release_name-IsOf :
      (name ns : String) (s : State) (d : Deployment)
      → find_by_release_name codec db name ns s ≡ ok d
      → IsOf name ns d
  unfolding find_by_release_name scan_first
  find_by_release_name-IsOf name ns s d found =
      let (rows, asked, first) =
        and_then-ok (query s (λ r. r.release_name == name && r.namespace == ns)) (scan_first codec)
          d found in
      from rows asked first
    where
      from :
          (rows : List Row)
          → query s (λ r. r.release_name == name && r.namespace == ns) ≡ ok rows
          → scan_first codec rows ≡ ok d
          → IsOf name ns d
      from [] asked first = cc
      from (r ∷ rows) asked first =
          let (_, kept) = (db.mem-query s _ (r ∷ rows) r asked).0 (Memᴰ.head refl) in
          subst (IsOf name ns) (ok_inj first) (scan-IsOf r name ns kept)

  -- A row of the namespace is stored, and it reads as the deployment.
  pub record IsListed (s : State) (ns : String) (d : Deployment) : Type 0 where
    pub stored : Row
    pub present : row s stored.id ≡ some stored
    pub placed : stored.namespace ≡ ns
    pub reads : scan_deployment codec stored ≡ d

  mem-map_scan :
      (rows : List Row) (d : Deployment)
      → Memᴰ d (map (scan_deployment codec) rows)
        ↔ ((r : Row) × Memᴰ r rows × (scan_deployment codec r ≡ d))
  mem-map_scan rows d = (split rows, λ (r, m, e). join rows r m e)
    where
      split :
          (rows : List Row)
          → Memᴰ d (map (scan_deployment codec) rows)
          → (r : Row) × Memᴰ r rows × (scan_deployment codec r ≡ d)
      split [] m = elim m [ ]
      split (r ∷ rows) (Memᴰ.head e) = (r, Memᴰ.head refl, sym e)
      split (r ∷ rows) (Memᴰ.tail m) = let (q, k, e) = split rows m in (q, Memᴰ.tail k, e)

      join :
          (rows : List Row) (r : Row)
          → Memᴰ r rows
          → scan_deployment codec r ≡ d
          → Memᴰ d (map (scan_deployment codec) rows)
      join [] r m e = elim m [ ]
      join (q ∷ rows) r (Memᴰ.head same) e = Memᴰ.head (sym e ∙ ap (scan_deployment codec) same)
      join (q ∷ rows) r (Memᴰ.tail m) e = Memᴰ.tail (join rows r m e)

  -- `ListByNamespace` lists exactly the deployments that the stored rows of the namespace read as.
  pub mem-list_by_namespace :
      (ns : String) (s : State) (ds : List Deployment) (d : Deployment)
      → list_by_namespace codec db ns s ≡ ok ds
      → Memᴰ d ds ↔ IsListed s ns d
  unfolding list_by_namespace
  mem-list_by_namespace ns s ds d listed =
      let (rows, asked, all) =
        and_then-ok (query s (λ r. r.namespace == ns))
          (λ rows. ok (map (scan_deployment codec) rows)) ds listed in
      let same : map (scan_deployment codec) rows ≡ ds = ok_inj all in
      let mapped = mem-map_scan rows d in
      (
        λ m.
            let (r, k, e) = mapped.0 (subst (Memᴰ d) (sym same) m) in
            let (here, kept) = (db.mem-query s _ rows r asked).0 k in
            record {
              stored = r;
              present = here;
              placed = (eq_iff r.namespace ns).0 kept;
              reads = e;
            },
        λ l. subst (Memᴰ d) same (
            mapped.1 (
              l.stored,
              (db.mem-query s _ rows l.stored asked).1
                  (l.present, (eq_iff l.stored.namespace ns).1 l.placed),
              l.reads,
            )),
      )
