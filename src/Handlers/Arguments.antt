-- ===== src/Handlers/Arguments.antt =====
-- How internal/adapters/mcp/handler.go reads the arguments of a tool call.
use sh_mcp_go.Prelude.{ℕ, String, Bool, none, some, List, [], ◌∷◌, ◌++◌, Any, Items, Fields, lookup}
use sh_mcp_go.HelmClient.Details.{non_empty_parts, split_commas}

-- A call's arguments, by name.
abbrev pub Arguments : Type 0
Arguments = List (String × Any)

-- The readers of mcp-go, each with the key and the default: `parse_int` is the conversion of
-- `ParseFloat64` to an `int`.
pub record Parser : Type 0 where
  pub parse_string : Arguments → (key default : String) → String
  pub parse_boolean : Arguments → (key : String) → (default : Bool) → Bool
  pub parse_int : Arguments → (key : String) → (default : ℕ) → ℕ

abbrev pub entries : Fields → List (String × Any)
entries Fields.stop = []
entries (Fields.field key value rest) = (key, value) ∷ entries rest

-- The argument `values`, where it is a map.
unfoldable pub values_argument : Arguments → List (String × Any)
unfolding lookup
values_argument args = elim (lookup "values" args) [
  | some (Any.object values) ↦ entries values
  | _ ↦ []
]

-- `strings.Split`, `TrimSpace` and the test for an empty part, on code points.
unfoldable pub comma_list : (text : List ℕ) → List (List ℕ)
unfolding non_empty_parts split_commas
comma_list text = non_empty_parts (split_commas text)

-- `defaultTimeoutSeconds`.
abbrev pub default_timeout_seconds : ℕ
default_timeout_seconds = 300

-- `extractDeps`: the names in the list under `dependencies`.
abbrev pub string_value : Any → List String
string_value (Any.str s) = s ∷ []
string_value _ = []

abbrev pub name_of : Any → List String
name_of (Any.object m) = elim (lookup "name" (entries m)) [ some v ↦ string_value v | none ↦ [] ]
name_of _ = []

unfoldable pub names_of : Items → List String
unfolding lookup
names_of Items.end = []
names_of (Items.item d rest) = name_of d ++ names_of rest

unfoldable pub extract_deps : (values : List (String × Any)) → List String
unfolding lookup names_of
extract_deps values = elim (lookup "dependencies" values) [
  | some (Any.list items) ↦ names_of items
  | _ ↦ []
]

-- The arguments that name a release.
abbrev pub release_argument : Parser → Arguments → String
release_argument parser args = parser.parse_string args "release_name" ""

abbrev pub namespace_argument : Parser → Arguments → String
namespace_argument parser args = parser.parse_string args "namespace" "default"
