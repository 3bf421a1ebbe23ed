-- ===== src/Storage/Changes.antt =====
-- What `Save` and `Delete` of internal/adapters/storage/sqlite/repository.go leave as it was.
use sh_mcp_go.Prelude.{
  String, ◌≡◌, ◌≢◌, sym, ap, ◌∙◌, false, List, Result, ok, err, and_then, and_then-ok, ok_inj, ◌==◌,
  eq_iff, arith,
}
use sh_mcp_go.Deployment.Errors.{Error}
use sh_mcp_go.Deployment.Entity.{Deployment}
use sh_mcp_go.Storage.Database.{Row, Database, Codec}
use sh_mcp_go.Storage.Repository.{wrap, row_with, to_row, save, find_by_id, delete, on_conflict}
use sh_mcp_go.Storage.Saves.{on_conflict-id, answer, find_by_id-row}

-- A call that changes the table, and the id that it is about.
pub data Change : Type 0 where
  saving : Deployment → Change
  deleting : (id : String) → Change

abbrev pub key : Change → String
key (saving d) = d.id
key (deleting id) = id

module _ (codec : Codec) where
  open codec use {marshal_values, marshal_history, marshal_strings}

  to_row-id : (d : Deployment) (r : Row) → to_row codec d ≡ ok r → r.id ≡ d.id
  unfolding to_row row_with
  to_row-id d r made =
      by_texts (marshal_values d.values) (marshal_history d.history) (marshal_strings d.annotations)
        (marshal_strings d.labels) made
    where
      by_texts :
          (v h a l : Result Error String)
          → and_then (wrap "marshaling values" v) (λ values.
            and_then (wrap "marshaling history" h) (λ history.
              and_then (wrap "marshaling annotations" a) (λ annotations.
                and_then
                  (wrap "marshaling labels" l)
                  (λ labels. ok (row_with codec values history annotations labels d)))))
            ≡ ok r
          → r.id ≡ d.id
      by_texts (err e) h a l made = cc
      by_texts (ok v) (err e) a l made = cc
      by_texts (ok v) (ok h) (err e) l made = cc
      by_texts (ok v) (ok h) (ok a) (err e) made = cc
      by_texts (ok v) (ok h) (ok a) (ok l) made = ap (λ x. x.id) (sym (ok_inj made))

  module _ (db : Database) where
    open db use {State, row, query}

    -- What the call makes of the table.
    abbrev pub changed : Change → State → Result Error State
    changed (saving d) = save codec db d
    changed (deleting id) = delete codec db id

    row-changed :
        (c : Change) (s t : State) (j : String)
        → (key c == j) ≡ false
        → changed c s ≡ ok t
        → row t j ≡ row s j
    unfolding save delete
    row-changed (saving d) s t j other done =
        let (r, made, written) =
          and_then-ok (to_row codec d) (λ r. db.upsert on_conflict r s) t done in
        let same = to_row-id d r made in
        let miss : (r.id == j) ≡ false = rw same other in
        rw miss at (db.row-upsert on_conflict r s t j (λ old. on_conflict-id old r) written)
    row-changed (deleting id) s t j other done = rw other at (db.row-delete id s t j done)

    -- A `Save` or a `Delete` that succeeds leaves what `FindByID` answers for any other id as it was.
    pub find_by_id_other :
        (c : Change) (s t : State) (j : String) (before after : List Row)
        → key c ≢ j
        → changed c s ≡ ok t
        → query s (λ r. r.id == j) ≡ ok before
        → query t (λ r. r.id == j) ≡ ok after
        → find_by_id codec db j t ≡ find_by_id codec db j s
    find_by_id_other c s t j before after other done asked_s asked_t =
        let miss : (key c == j) ≡ false = ground (arith, eq_iff (key c) j) in
        find_by_id-row codec db j t after asked_t
        ∙ ap (answer codec db) (row-changed c s t j miss done)
        ∙ sym (find_by_id-row codec db j s before asked_s)
