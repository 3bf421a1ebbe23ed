-- ===== src/Samples/Storing.antt =====
-- A table with room for one row: the theorems on internal/adapters/storage/sqlite at concrete inputs.
use sh_mcp_go.Prelude.{
  String, ◌≡◌, ◌≢◌, ◌↔◌, inl, inr, refl, sym, ap, ◌∙◌, subst, Bool, true, false, Option, none, some,
  List, [], ◌∷◌, Result, ok, err, ok_inj, if◌then◌else◌, ◌==◌, eq_iff, eq_refl, arith, Bool-cases,
}
use mathlib.Core.List.{Memᴰ}
use sh_mcp_go.Deployment.Errors.{Error, external}
use sh_mcp_go.Deployment.Entity.{Deployment}
use sh_mcp_go.Storage.Texts
use sh_mcp_go.Storage.Database.{Row, Database, Codec, merged}
use sh_mcp_go.Storage.Repository.{
  row_with, save, find_by_id, find_by_release_name, list_by_namespace, delete, scan_deployment,
  scan_first,
}
use sh_mcp_go.Storage.Saves.{Survives, replaces, not_found, find_by_id-save, find_by_id-delete}
use sh_mcp_go.Storage.Changes.{deleting, find_by_id_other}
use sh_mcp_go.Storage.Queries.{find_by_release_name-IsOf, IsListed, mem-list_by_namespace}
use sh_mcp_go.Application.Rules.{IsOf}
use sh_mcp_go.Samples.Deployments.{nginx}

abbrev Slot : Type 0
Slot = Option Row

abbrev slot_row : Slot → String → Option Row
slot_row none id = none
slot_row (some r) id = if r.id == id then some r else none

abbrev slot_upsert : (Row → Row → Row) → Row → Slot → Result Error Slot
slot_upsert update new none = ok (some new)
slot_upsert update new (some old) =
    if old.id == new.id then ok (some (update old new)) else err (external "full")

abbrev slot_delete : String → Slot → Result Error Slot
slot_delete id none = ok none
slot_delete id (some r) = if r.id == id then ok none else ok (some r)

abbrev slot_query : Slot → (Row → Bool) → Result Error (List Row)
slot_query none keep = ok []
slot_query (some r) keep = if keep r then ok (r ∷ []) else ok []

slot_row-id : (s : Slot) (id : String) (r : Row) → slot_row s id ≡ some r → r.id ≡ id
slot_row-id none id r h = cc
slot_row-id (some q) id r h = ground (arith, eq_iff q.id id)

slot_row-upsert :
    (update : Row → Row → Row) (new : Row) (s t : Slot) (j : String)
    → ((old : Row) → (update old new).id ≡ old.id)
    → slot_upsert update new s ≡ ok t
    → slot_row t j
      ≡ (if new.id == j then some (merged update (slot_row s new.id) new) else slot_row s j)
slot_row-upsert update new none t j keeps h = rw (sym (ok_inj h))
slot_row-upsert update new (some old) t j keeps h =
    ground (arith, keeps old, eq_iff old.id new.id, eq_iff old.id j, eq_iff new.id j)

slot_row-delete :
    (id : String) (s t : Slot) (j : String)
    → slot_delete id s ≡ ok t
    → slot_row t j ≡ (if id == j then none else slot_row s j)
slot_row-delete id none t j h = ground arith
slot_row-delete id (some r) t j h = ground (arith, eq_iff r.id id, eq_iff r.id j, eq_iff id j)

slot_mem-query :
    (s : Slot) (keep : Row → Bool) (rows : List Row) (r : Row)
    → slot_query s keep ≡ ok rows
    → Memᴰ r rows ↔ ((slot_row s r.id ≡ some r) × (keep r ≡ true))
slot_mem-query none keep rows r h =
    (λ m. elim (subst (Memᴰ r) (sym (ok_inj h)) m) [ ], λ (absent, _). cc)
slot_mem-query (some q) keep rows r h = elim (Bool-cases (keep q)) [
  | inr refused ↦
      let same : [] ≡ rows = ok_inj (rw refused at h) in
      (
        λ m. elim (subst (Memᴰ r) (sym same) m) [ ],
        λ (present, kept). cc (sym refused ∙ (ap keep (slot_row-same q r.id r present) ∙ kept)),
      )
  | inl accepted ↦
      let same : q ∷ [] ≡ rows = ok_inj (rw accepted at h) in
      (
        λ m. only (subst (Memᴰ r) (sym same) m) accepted,
        λ (present, kept). subst (Memᴰ r) same (Memᴰ.head (sym (slot_row-same q r.id r present))),
      )
]
  where
    slot_row-same : (q : Row) (id : String) (r : Row) → slot_row (some q) id ≡ some r → q ≡ r
    slot_row-same q id r h = ground (arith, eq_iff q.id id)

    only : Memᴰ r (q ∷ []) → keep q ≡ true → (slot_row (some q) r.id ≡ some r) × (keep r ≡ true)
    only (Memᴰ.head e) k = (rw (e, eq_refl q.id), ap keep e ∙ k)
    only (Memᴰ.tail m) k = elim m [ ]

abbrev slot : Database
slot = record {
  State = Slot;
  row = slot_row;
  upsert = slot_upsert;
  delete = slot_delete;
  query = slot_query;
  row-id = slot_row-id;
  row-upsert = slot_row-upsert;
  row-delete = slot_row-delete;
  mem-query = slot_mem-query;
}

-- Texts for empty values.
abbrev blank : Codec
blank = record {
  marshal_values = λ _. ok "{}";
  marshal_history = λ _. ok "[]";
  marshal_strings = λ _. ok "{}";
  unmarshal_values = λ _. some [];
  parse_history = λ _. [];
  unmarshal_strings = λ _. some [];
  format_time = λ _. "1970-01-01T00:00:11Z";
  parse_time = λ _. 11;
}

nginx-Survives : Survives blank nginx
unfolding nginx Texts.status_of Texts.status_text Texts.source_of Texts.source_text
nginx-Survives = record {
  values_text = "{}";
  history_text = "[]";
  annotations_text = "{}";
  labels_text = "{}";
  values_written = refl;
  values_read = refl;
  history_written = refl;
  history_read = refl;
  annotations_written = refl;
  annotations_read = refl;
  labels_written = refl;
  labels_read = refl;
  status_spelled = refl;
  source_spelled = refl;
}

abbrev nginx_row : Row
unfolding row_with
nginx_row = row_with blank "{}" "[]" "{}" "{}" nginx

saved : save blank slot nginx none ≡ ok (some nginx_row)
unfolding save
saved = refl

deleted : delete blank slot "id-1" (some nginx_row) ≡ ok none
unfolding delete nginx nginx_row
deleted = refl

asked : slot_query (some nginx_row) (λ r. r.id == "id-1") ≡ ok (nginx_row ∷ [])
unfolding nginx nginx_row
asked = refl

find_by_id-save_example :
    find_by_id blank slot "id-1" (some nginx_row) ≡ ok (replaces blank none nginx)
unfolding nginx
find_by_id-save_example =
    find_by_id-save blank slot nginx none (some nginx_row) (nginx_row ∷ []) nginx-Survives saved
      asked

id_differs : ◌≢◌ {A = String} "id-2" "id-1"
id_differs h = let same : false ≡ true = (eq_iff "id-2" "id-1").1 h in cc

kept : delete blank slot "id-2" (some nginx_row) ≡ ok (some nginx_row)
unfolding delete nginx nginx_row
kept = refl

find_by_id_other_example :
    find_by_id blank slot "id-1" (some nginx_row) ≡ find_by_id blank slot "id-1" (some nginx_row)
find_by_id_other_example =
    find_by_id_other blank slot (deleting "id-2") (some nginx_row) (some nginx_row) "id-1"
      (nginx_row ∷ []) (nginx_row ∷ []) id_differs kept asked asked

find_by_id-delete_example : find_by_id blank slot "id-1" none ≡ not_found
find_by_id-delete_example =
    find_by_id-delete blank slot "id-1" (some nginx_row) none [] deleted refl

abbrev loaded : Deployment
unfolding scan_deployment
loaded = scan_deployment blank nginx_row

found : find_by_release_name blank slot "web" "default" (some nginx_row) ≡ ok loaded
unfolding find_by_release_name scan_first loaded nginx nginx_row
found = refl

find_by_release_name-IsOf_example : IsOf "web" "default" loaded
find_by_release_name-IsOf_example =
    find_by_release_name-IsOf blank slot "web" "default" (some nginx_row) loaded found

listed : list_by_namespace blank slot "default" (some nginx_row) ≡ ok (loaded ∷ [])
unfolding list_by_namespace loaded nginx nginx_row
listed = refl

mem-list_by_namespace_example :
    Memᴰ loaded (loaded ∷ []) ↔ IsListed blank slot (some nginx_row) "default" loaded
mem-list_by_namespace_example =
    mem-list_by_namespace blank slot "default" (some nginx_row) (loaded ∷ []) loaded listed
