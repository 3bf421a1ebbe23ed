-- ===== src/Storage/Saves.antt =====
-- What a deployment is after `Save` of internal/adapters/storage/sqlite/repository.go.
use sh_mcp_go.Prelude.{
  String, ◌≡◌, refl, sym, ap, ◌∙◌, subst, Option, none, some, List, [], ◌∷◌, Result, ok, err,
  and_then-ok, ok_inj, if◌then◌else◌, ◌==◌, eq_iff, eq_refl, Option-cases, inl, inr,
}
use mathlib.Core.List.{Memᴰ}
use sh_mcp_go.Deployment.Errors.{Error, external, wrapped}
use sh_mcp_go.Deployment.Entity.{Deployment}
use sh_mcp_go.Storage.Texts.{IsSpelled, IsSpelledSource}
use sh_mcp_go.Storage.Database.{Row, Database, Codec, merged}
use sh_mcp_go.Storage.Repository.{
  on_conflict, row_with, to_row, scan_deployment, scan_first, save, find_by_id, delete,
}

abbrev pub not_found : Result Error Deployment
not_found = err (wrapped "deployment not found" (external "sql: no rows in result set"))

pub on_conflict-id : (old excluded : Row) → (on_conflict old excluded).id ≡ old.id
unfolding on_conflict
on_conflict-id old excluded = refl

module _ (codec : Codec) where
  open codec use {
    marshal_values, marshal_history, marshal_strings, unmarshal_values, parse_history,
    unmarshal_strings, format_time, parse_time,
  }

  -- The deployment's texts are read back as what was written, and its status and its source are
  -- spelled as such.
  pub record Survives (d : Deployment) : Type 0 where
    pub values_text : String
    pub history_text : String
    pub annotations_text : String
    pub labels_text : String
    pub values_written : marshal_values d.values ≡ ok values_text
    pub values_read : unmarshal_values values_text ≡ some d.values
    pub history_written : marshal_history d.history ≡ ok history_text
    pub history_read : parse_history history_text ≡ d.history
    pub annotations_written : marshal_strings d.annotations ≡ ok annotations_text
    pub annotations_read : unmarshal_strings annotations_text ≡ some d.annotations
    pub labels_written : marshal_strings d.labels ≡ ok labels_text
    pub labels_read : unmarshal_strings labels_text ≡ some d.labels
    pub status_spelled : IsSpelled d.status
    pub source_spelled : IsSpelledSource d.chart_ref.source

  -- The deployment without its events, with its times as RFC 3339 keeps them.
  abbrev pub stored : Deployment → Deployment
  stored d = record d {
    events = [];
    created_at = parse_time (format_time d.created_at);
    updated_at = parse_time (format_time d.updated_at);
  }

  -- The deployment that replaces the one that was stored under its id, where there was one.
  abbrev pub replaces : Option Deployment → Deployment → Deployment
  replaces none d = stored d
  replaces (some old) d = record (stored d) {
    name = old.name;
    namespace = old.namespace;
    chart_ref = record old.chart_ref { version = d.chart_ref.version };
    created_at = old.created_at;
  }

  abbrev pub scanned : Option Row → Option Deployment
  scanned none = none
  scanned (some r) = some (scan_deployment codec r)

  abbrev surviving_row : (d : Deployment) → Survives d → Row
  surviving_row d v = row_with codec v.values_text v.history_text v.annotations_text v.labels_text d

  to_row-Survives : (d : Deployment) (v : Survives d) → to_row codec d ≡ ok (surviving_row d v)
  unfolding to_row
  to_row-Survives d v =
      rw (v.values_written, v.history_written, v.annotations_written, v.labels_written)

  scan-new_row :
      (d : Deployment) (v : Survives d) → scan_deployment codec (surviving_row d v) ≡ stored d
  unfolding scan_deployment row_with
  scan-new_row d v = rw (
    v.values_read, v.history_read, v.annotations_read, v.labels_read, v.status_spelled,
    v.source_spelled,
  )

  scan-merged :
      (d : Deployment) (v : Survives d) (old : Row)
      → old.id ≡ d.id
      → scan_deployment codec (on_conflict old (surviving_row d v))
        ≡ replaces (some (scan_deployment codec old)) d
  unfolding scan_deployment on_conflict row_with
  scan-merged d v old key =
      rw (v.values_read, v.history_read, v.annotations_read, v.labels_read, v.status_spelled, key)

  module _ (db : Database) where
    open db use {State, row, query}

    -- What `FindByID` answers for the row under the id.
    abbrev pub answer : Option Row → Result Error Deployment
    answer none = not_found
    answer (some r) = ok (scan_deployment codec r)

    pub find_by_id-row :
        (id : String) (s : State) (rows : List Row)
        → query s (λ r. r.id == id) ≡ ok rows
        → find_by_id codec db id s ≡ answer (row s id)
    unfolding find_by_id scan_first
    find_by_id-row id s [] asked = elim (Option-cases (row s id)) [
      | inl absent ↦ rw (asked, absent)
      | inr (r, present) ↦
          let key = db.row-id s id r present in
          elim ((db.mem-query s (λ x. x.id == id) [] r asked).1
            (ap (row s) key ∙ present, (eq_iff r.id id).1 key)) [ ]
    ]
    find_by_id-row id s (r ∷ rows) asked =
        let (present, same) =
          (db.mem-query s (λ x. x.id == id) (r ∷ rows) r asked).0 (Memᴰ.head refl) in
        let key = (eq_iff r.id id).0 same in
        let here : row s id ≡ some r = subst (λ k. row s k ≡ some r) key present in rw (asked, here)

    save-row :
        (d : Deployment) (v : Survives d) (s t : State) (j : String)
        → save codec db d s ≡ ok t
        → row t j ≡ (
            if d.id == j
            then some (merged on_conflict (row s d.id) (surviving_row d v))
            else row s j)
    unfolding save row_with
    save-row d v s t j saved =
        let (r, made, written) =
          and_then-ok (to_row codec d) (λ r. db.upsert on_conflict r s) t saved in
        let same : surviving_row d v ≡ r = ok_inj (sym (to_row-Survives d v) ∙ made) in
        db.row-upsert on_conflict (surviving_row d v) s t j
          (λ old. on_conflict-id old (surviving_row d v))
          (subst (λ x. db.upsert on_conflict x s ≡ ok t) (sym same) written)

    answer-merged :
        (d : Deployment) (v : Survives d) (s : State) (old : Option Row)
        → row s d.id ≡ old
        → answer (some (merged on_conflict old (surviving_row d v))) ≡ ok (replaces (scanned old) d)
    answer-merged d v s none before = ap ok (scan-new_row d v)
    answer-merged d v s (some r) before = ap ok (scan-merged d v r (db.row-id s d.id r before))

    -- After a `Save` that succeeds, of a deployment whose texts are read back as what was written,
    -- `FindByID` finds what was saved, without its events and with its times as RFC 3339 keeps them; but
    -- where a deployment was stored under the id before, its name, its namespace, its time of creation
    -- and its chart's name, repository and source stay as they were, whatever was saved.
    pub find_by_id-save :
        (d : Deployment) (s t : State) (rows : List Row)
        → Survives d
        → save codec db d s ≡ ok t
        → query t (λ r. r.id == d.id) ≡ ok rows
        → find_by_id codec db d.id t ≡ ok (replaces (scanned (row s d.id)) d)
    find_by_id-save d s t rows v saved asked =
        let here : row t d.id ≡ some (merged on_conflict (row s d.id) (surviving_row d v)) =
          rw (eq_refl d.id) at (save-row d v s t d.id saved) in
        find_by_id-row d.id t rows asked ∙ ap answer here ∙ answer-merged d v s (row s d.id) refl

    -- After a `Delete` that succeeds, `FindByID` finds nothing under the id.
    pub find_by_id-delete :
        (id : String) (s t : State) (rows : List Row)
        → delete codec db id s ≡ ok t
        → query t (λ r. r.id == id) ≡ ok rows
        → find_by_id codec db id t ≡ not_found
    unfolding delete
    find_by_id-delete id s t rows deleted asked =
        let gone : row t id ≡ none = rw (eq_refl id) at (db.row-delete id s t id deleted) in
        find_by_id-row id t rows asked ∙ ap answer gone
