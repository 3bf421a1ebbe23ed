-- ===== src/Deployment/Naming.antt =====
-- internal/domain/deployment/value_objects.go: release names and namespaces.
pub mod Labels
use sh_mcp_go.Prelude.{
  ℕ, zero, suc, String, Bool, true, false, ◌&&◌, ◌||◌, Option, none, some, List, [], ◌∷◌, leb, eqb,
  codes, if◌then◌else◌, ◌==◌,
}
use sh_mcp_go.Deployment.Errors.{
  Error, empty_release_name, invalid_release_name, empty_namespace, invalid_namespace,
}

-- The two bracket expressions of the patterns: `[a-z0-9]` and `[a-z0-9\-]`.
pub data CharClass : Type 0 where
  alnum alnum_hyphen : CharClass

unfoldable pub in_class : CharClass → ℕ → Bool
in_class alnum c = leb b'a' c && leb c b'z' || leb b'0' c && leb c b'9'
in_class alnum_hyphen c = leb b'a' c && leb c b'z' || leb b'0' c && leb c b'9' || eqb c b'-'

-- A piece of a pattern: a bracket expression, or one under `{0,n}`.
pub data Piece : Type 0 where
  one : CharClass → Piece
  up_to : ℕ → CharClass → Piece

-- The pattern between `^` and `$` matches the whole text.
unfoldable pub matches : List Piece → List ℕ → Bool
matches [] [] = true
matches [] (x ∷ s) = false
matches (one c ∷ ps) [] = false
matches (one c ∷ ps) (x ∷ s) = in_class c x && matches ps s
matches (up_to zero c ∷ ps) s = matches ps s
matches (up_to (suc n) c ∷ ps) [] = matches ps []
matches (up_to (suc n) c ∷ ps) (x ∷ s) =
    matches ps (x ∷ s) || in_class c x && matches (up_to n c ∷ ps) s

-- `releaseNameRE` and `namespaceRE`, without the bound of the repetition.
abbrev pub name_re : ℕ → List ℕ → Bool
name_re n s =
    matches (one alnum ∷ up_to n alnum_hyphen ∷ one alnum ∷ []) s || matches (one alnum ∷ []) s

unfoldable pub release_name_re : List ℕ → Bool
unfolding matches in_class
release_name_re s = name_re 52 s

unfoldable pub namespace_re : List ℕ → Bool
unfolding matches in_class
namespace_re s = name_re 61 s

-- `ReleaseName.Validate`; `none` is the nil error.
unfoldable pub validate_release_name : String → Option Error
validate_release_name r =
    if r == ""
    then some empty_release_name
    else if release_name_re (codes r)
    then none
    else some (invalid_release_name r)

-- `Namespace.Validate`.
unfoldable pub validate_namespace : String → Option Error
validate_namespace n =
    if n == ""
    then some empty_namespace
    else if namespace_re (codes n)
    then none
    else some (invalid_namespace n)
