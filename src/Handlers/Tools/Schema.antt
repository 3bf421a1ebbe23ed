-- ===== src/Handlers/Tools/Schema.antt =====
-- The tools that internal/adapters/mcp/server.go declares: names and parameters, without the texts that
-- describe them.
use sh_mcp_go.Prelude.{
  ℕ, String, ◌≡◌, Bool, true, false, ◌||◌, List, [], ◌∷◌, lookup, if◌then◌else◌, ◌==◌,
}
use sh_mcp_go.Handlers.Arguments.{Arguments, Parser}

-- `WithString`, `WithBoolean`, `WithNumber` and `WithObject`.
pub data Kind : Type 0 where
  string boolean number object : Kind

pub record Param : Type 0 where
  pub kind : Kind
  pub name : String
  pub is_required : Bool

pub record Tool : Type 0 where
  pub name : String
  pub params : List Param

abbrev pub required : Kind → String → Param
required kind name = record { kind = kind; name = name; is_required = true }

abbrev pub optional : Kind → String → Param
optional kind name = record { kind = kind; name = name; is_required = false }

abbrev pub same_kind : Kind → Kind → Bool
same_kind string string = true
same_kind boolean boolean = true
same_kind number number = true
same_kind object object = true
same_kind _ _ = false

-- Some parameter has the kind and the name.
unfoldable pub declares : Kind → (name : String) → List Param → Bool
declares kind name [] = false
declares kind name (param ∷ params) =
    let rest = declares kind name params in
    if param.name == name then same_kind (param.kind) kind || rest else rest

-- Two readers give the same for a parameter, whatever the default.
module _ (p : Parser) (args : Arguments) (q : Parser) (others : Arguments) where
  abbrev pub SameAt : Kind → (name : String) → Type 0
  SameAt string name =
      (default : String) → p.parse_string args name default ≡ q.parse_string others name default
  SameAt boolean name =
      (default : Bool) → p.parse_boolean args name default ≡ q.parse_boolean others name default
  SameAt number name =
      (default : ℕ) → p.parse_int args name default ≡ q.parse_int others name default
  SameAt object name = lookup name args ≡ lookup name others

  -- The same for each parameter that a tool declares.
  abbrev pub Agree : Tool → Type 0
  Agree tool =
      (kind : Kind) (name : String) → declares kind name (tool.params) ≡ true → SameAt kind name
