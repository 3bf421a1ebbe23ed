-- ===== src/Storage/Database.antt =====
-- What internal/adapters/storage/sqlite/repository.go takes from SQLite, from encoding/json and from
-- the time package.
use sh_mcp_go.Prelude.{
  ℕ, String, ◌≡◌, ◌↔◌, Bool, true, Option, none, some, List, Result, ok, if◌then◌else◌, ◌==◌,
}
use mathlib.Core.List.{Memᴰ}
use sh_mcp_go.Deployment.Errors.{Error}
use sh_mcp_go.Deployment.Values.{Values}
use sh_mcp_go.Deployment.Entity.{HistoryEntry}

-- A row of the table `deployments`, by its columns.
pub record Row : Type 0 where
  pub id : String
  pub release_name : String
  pub namespace : String
  pub chart_name : String
  pub chart_repo : String
  pub chart_version : String
  pub chart_source : String
  pub values_json : String
  pub status : String
  pub version : ℕ
  pub history_json : String
  pub annotations_json : String
  pub labels_json : String
  pub created_at : String
  pub updated_at : String

-- The row under the key of a new one, after `INSERT … ON CONFLICT(id) DO UPDATE`; `update` gets the old
-- row and the excluded one.
abbrev pub merged : (update : Row → Row → Row) → Option Row → Row → Row
merged update none new = new
merged update (some old) new = update old new

-- The database: the row that a state has under a primary key, and the statements. The laws are those
-- of the table's primary key.
pub record Database : Type 1 where
  pub State : Type 0
  pub row : State → (id : String) → Option Row
  pub upsert : (update : Row → Row → Row) → Row → State → Result Error State
  pub delete : (id : String) → State → Result Error State
  pub query : State → (keep : Row → Bool) → Result Error (List Row)
  pub row-id : (s : State) (id : String) (r : Row) → row s id ≡ some r → r.id ≡ id
  pub row-upsert :
      (update : Row → Row → Row) (new : Row) (s t : State) (j : String)
      → ((old : Row) → (update old new).id ≡ old.id)
      → upsert update new s ≡ ok t
      → row t j ≡ (if new.id == j then some (merged update (row s new.id) new) else row s j)
  pub row-delete :
      (id : String) (s t : State) (j : String)
      → delete id s ≡ ok t
      → row t j ≡ (if id == j then none else row s j)
  pub mem-query :
      (s : State) (keep : Row → Bool) (rows : List Row) (r : Row)
      → query s keep ≡ ok rows
      → Memᴰ r rows ↔ ((row s r.id ≡ some r) × (keep r ≡ true))

-- `json.Marshal` and `json.Unmarshal`, by the types that the repository uses them at, and `Format` and
-- `time.Parse` for RFC 3339; `parse_history` and `parse_time` answer with what the code goes on with
-- where it drops the error.
pub record Codec : Type 0 where
  pub marshal_values : Values → Result Error String
  pub marshal_history : List HistoryEntry → Result Error String
  pub marshal_strings : List (String × String) → Result Error String
  pub unmarshal_values : String → Option Values
  pub parse_history : String → List HistoryEntry
  pub unmarshal_strings : String → Option (List (String × String))
  pub format_time : ℕ → String
  pub parse_time : String → ℕ
