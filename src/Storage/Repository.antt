-- ===== src/Storage/Repository.antt =====
-- The operations of internal/adapters/storage/sqlite/repository.go.
use sh_mcp_go.Prelude.{
  String, Option, none, some, List, [], ◌∷◌, map, Result, ok, err, and_then, ◌&&◌, ◌==◌,
}
use sh_mcp_go.Deployment.Status.{Status}
use sh_mcp_go.Deployment.Errors.{Error, external, wrapped}
use sh_mcp_go.Deployment.Entity.{Deployment, reconstitute}
use sh_mcp_go.Storage.Texts.{status_text, status_of, source_text, source_of}
use sh_mcp_go.Storage.Database.{Row, Database, Codec}

-- `fmt.Errorf("<what>: %w", err)` around a call.
abbrev pub wrap : {A : Type 0} → (what : String) → Result Error A → Result Error A
wrap what (ok a) = ok a
wrap what (err e) = err (wrapped what e)

-- The `ON CONFLICT(id) DO UPDATE SET` clause: the columns that an existing row takes over.
unfoldable pub on_conflict : (old excluded : Row) → Row
on_conflict old excluded = record old {
  status = excluded.status;
  version = excluded.version;
  chart_version = excluded.chart_version;
  values_json = excluded.values_json;
  history_json = excluded.history_json;
  annotations_json = excluded.annotations_json;
  labels_json = excluded.labels_json;
  updated_at = excluded.updated_at;
}

abbrev or_empty : {A : Type 0} → Option (List A) → List A
or_empty none = []
or_empty (some xs) = xs

module _ (codec : Codec) where
  open codec use {
    marshal_values, marshal_history, marshal_strings, unmarshal_values, parse_history,
    unmarshal_strings, format_time, parse_time,
  }

  -- The row that `Save` inserts, from the marshaled texts.
  unfoldable pub row_with : (values history annotations labels : String) → Deployment → Row
  unfolding status_text source_text
  row_with values history annotations labels d = record {
    id = d.id;
    release_name = d.name;
    namespace = d.namespace;
    chart_name = d.chart_ref.name;
    chart_repo = d.chart_ref.repo_url;
    chart_version = d.chart_ref.version;
    chart_source = source_text d.chart_ref.source;
    values_json = values;
    status = status_text d.status;
    version = d.version;
    history_json = history;
    annotations_json = annotations;
    labels_json = labels;
    created_at = format_time d.created_at;
    updated_at = format_time d.updated_at;
  }

  -- The first part of `Save`.
  unfoldable pub to_row : Deployment → Result Error Row
  unfolding row_with
  to_row d = and_then (wrap "marshaling values" (marshal_values d.values)) (λ values.
      and_then (wrap "marshaling history" (marshal_history d.history)) (λ history.
        and_then (wrap "marshaling annotations" (marshal_strings d.annotations)) (λ annotations.
          and_then (wrap "marshaling labels" (marshal_strings d.labels))
            (λ labels. ok (row_with values history annotations labels d)))))

  -- `scanDeployment`, from a row on.
  unfoldable pub scan_deployment : Row → Deployment
  unfolding reconstitute status_of source_of
  scan_deployment r =
      reconstitute r.id r.release_name r.namespace
        (record {
          name = r.chart_name;
          repo_url = r.chart_repo;
          version = r.chart_version;
          source = source_of r.chart_source;
        })
        (or_empty (unmarshal_values r.values_json)) (status_of r.status) r.version
        (parse_history r.history_json) (parse_time r.created_at) (parse_time r.updated_at)
        (or_empty (unmarshal_strings r.annotations_json))
        (or_empty (unmarshal_strings r.labels_json))

  -- `scanDeployment` on `QueryRowContext`, which takes the first row.
  unfoldable pub scan_first : List Row → Result Error Deployment
  unfolding scan_deployment
  scan_first [] = err (wrapped "deployment not found" (external "sql: no rows in result set"))
  scan_first (r ∷ rows) = ok (scan_deployment r)

  module _ (db : Database) where
    open db use {State, upsert, query}

    unfoldable pub save : Deployment → State → Result Error State
    unfolding to_row on_conflict
    save d s = and_then (to_row d) (λ r. upsert on_conflict r s)

    unfoldable pub find_by_id : (id : String) → State → Result Error Deployment
    find_by_id id s = and_then (query s (λ r. r.id == id)) scan_first

    unfoldable pub find_by_release_name : (name ns : String) → State → Result Error Deployment
    find_by_release_name name ns s =
        and_then (query s (λ r. r.release_name == name && r.namespace == ns)) scan_first

    unfoldable pub list_by_namespace : (ns : String) → State → Result Error (List Deployment)
    list_by_namespace ns s =
        and_then (query s (λ r. r.namespace == ns)) (λ rows. ok (map scan_deployment rows))

    unfoldable pub list_by_status : Status → State → Result Error (List Deployment)
    unfolding status_text
    list_by_status status s =
        and_then (query s (λ r. r.status == status_text status))
          (λ rows. ok (map scan_deployment rows))

    unfoldable pub delete : (id : String) → State → Result Error State
    delete id s = db.delete id s
