-- ===== src/Prelude/Maps.antt =====
-- Go's `any` as it occurs in Helm values and step parameters, and string maps as association lists.
use Prim.Native.Nat.{ℕ}
use Prim.Native.String.{String}
use mathlib.Core.Path.{◌≡◌, refl}
use mathlib.Core.Bool.{Bool, true, false, not, ◌&&◌}
use mathlib.Core.Option.{Option, none, some}
use mathlib.Core.List.{List, [], ◌∷◌}
use native.Mathlib.Omega.{arith}
use text.Mathlib.Text.{◌==◌}
use text.Mathlib.TextEquality.{eq_iff}
use sh_mcp_go.Prelude.Tests.{if◌then◌else◌}

-- `int` and `float` hold the bit pattern of an `int` and of a `float64`.
mutual
  pub data Any : Type 0 where
    nil : Any
    bool : Bool → Any
    int : ℕ → Any
    float : ℕ → Any
    str : String → Any
    list : Items → Any
    object : Fields → Any

  pub data Items : Type 0 where
    end : Items
    item : Any → Items → Items

  pub data Fields : Type 0 where
    stop : Fields
    field : String → Any → Fields → Fields

-- A map as a value.
abbrev pub fields : List (String × Any) → Fields
fields [] = stop
fields ((k, v) ∷ m) = field k v (fields m)

module _ {ℓ} {V : Type ℓ} where
  -- `dict[key]`, with the test for presence.
  unfoldable pub lookup : (key : String) → (dict : List (String × V)) → Option V
  lookup key [] = none
  lookup key ((name, value) ∷ dict) = if name == key then some value else lookup key dict

  unfoldable pub has_key : (key : String) → (dict : List (String × V)) → Bool
  has_key key [] = false
  has_key key ((name, value) ∷ dict) = if name == key then true else has_key key dict

  -- `dict[key] = value`: in the place of the old entry, or at the end.
  unfoldable pub insert :
      (key : String) → (value : V) → (dict : List (String × V)) → List (String × V)
  insert key value [] = (key, value) ∷ []
  insert key value ((name, old) ∷ dict) =
      if name == key then (key, value) ∷ dict else (name, old) ∷ insert key value dict

  -- A map holds a key once.
  unfoldable pub unique_keys : (dict : List (String × V)) → Bool
  unfolding has_key
  unique_keys [] = true
  unique_keys ((name, value) ∷ dict) = not (has_key name dict) && unique_keys dict

  module _ (key : String) (value : V) where
    pub lookup-insert :
        (sought : String) (dict : List (String × V))
        → (if key == sought then some value else lookup sought dict)
          ≡ lookup sought (insert key value dict)
    unfolding insert lookup
    lookup-insert sought [] = refl
    lookup-insert sought ((name, old) ∷ dict) =
        let later = lookup-insert sought dict in
        ground (later, eq_iff name key, eq_iff name sought, eq_iff key sought, arith)

    pub has_key-insert :
        (sought : String) (dict : List (String × V))
        → has_key sought (insert key value dict)
          ≡ (if key == sought then true else has_key sought dict)
    unfolding insert has_key
    has_key-insert sought [] = refl
    has_key-insert sought ((name, old) ∷ dict) =
        let later = has_key-insert sought dict in
        ground (later, eq_iff name key, eq_iff name sought, eq_iff key sought, arith)

    pub unique_keys-insert :
        (dict : List (String × V))
        → unique_keys dict ≡ true
        → unique_keys (insert key value dict) ≡ true
    unfolding insert unique_keys
    unique_keys-insert [] h = refl
    unique_keys-insert ((name, old) ∷ dict) h =
        let absent = has_key-insert name dict in
        let later = unique_keys-insert dict in
        ground (later, absent, eq_iff name key, eq_iff key name, arith)
