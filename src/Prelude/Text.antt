-- ===== src/Prelude/Text.antt =====
-- Text as code points, for the code that walks strings.
use Prim.Native.Nat.{ℕ}
use Prim.Native.Char.{code}
use Prim.Native.String.{String, ◌++◌ as text_append}
use mathlib.Core.Bool.{Bool, true, false, ◌&&◌, ◌||◌}
use mathlib.Core.List.{List, [], ◌∷◌, reverse}
use sh_mcp_go.Prelude.Tests.{eqb, leb, if◌then◌else◌}

abbrev pub codes : String → List ℕ
codes String.[] = []
codes (String.◌∷◌ c s) = code c ∷ codes s

-- The pieces of a formatted text, joined.
unfoldable pub concat : List String → String
concat [] = ""
concat (s ∷ ss) = text_append s (concat ss)

unfoldable pub is_prefix : (prefix s : List ℕ) → Bool
is_prefix [] s = true
is_prefix (c ∷ cs) [] = false
is_prefix (c ∷ cs) (d ∷ s) = eqb c d && is_prefix cs s

-- `strings.Contains`.
unfoldable pub contains : (s sub : List ℕ) → Bool
unfolding is_prefix
contains [] sub = is_prefix sub []
contains (c ∷ s) sub = is_prefix sub (c ∷ s) || contains s sub

-- `unicode.IsSpace`.
unfoldable pub is_space : ℕ → Bool
is_space c =
    leb 9 c && leb c 13
    || eqb c 0x20
    || eqb c 0x85
    || eqb c 0xa0
    || eqb c 0x1680
    || leb 0x2000 c && leb c 0x200a
    || eqb c 0x2028
    || eqb c 0x2029
    || eqb c 0x202f
    || eqb c 0x205f
    || eqb c 0x3000

unfoldable pub drop_spaces : List ℕ → List ℕ
unfolding is_space
drop_spaces [] = []
drop_spaces (c ∷ s) = if is_space c then drop_spaces s else c ∷ s

-- `strings.TrimSpace`.
unfoldable pub trim_space : List ℕ → List ℕ
unfolding drop_spaces
trim_space s = reverse (drop_spaces (reverse (drop_spaces s)))

abbrev pub is_nil {ℓ} : {A : Type ℓ} → List A → Bool
is_nil [] = true
is_nil (x ∷ xs) = false
