-- ===== src/Deployment/Values.antt =====
-- internal/domain/deployment/value_objects.go: Helm values and their merge.
use sh_mcp_go.Prelude.{
  String, ◌≡◌, ◌∙◌, ap, refl, true, Option, none, some, List, [], ◌∷◌, arith, Any, lookup, insert,
  unique_keys, lookup-insert, unique_keys-insert,
}

abbrev pub Values : Type 0
Values = List (String × Any)

-- `for k, val := range src { dst[k] = val }`. Go leaves the order of the entries open; here the last
-- entry is copied first.
unfoldable pub copy_into : Values → Values → Values
copy_into dst [] = dst
copy_into dst ((k, v) ∷ src) = insert k v (copy_into dst src)

-- `Values.Merge`.
unfoldable pub merge : Values → Values → Values
unfolding copy_into
merge v overrides = copy_into (copy_into [] v) overrides

-- The first of two results that is there.
abbrev pub or_else : Option Any → Option Any → Option Any
or_else none o = o
or_else (some v) o = some v

lookup-copy_into :
    (k : String) (dst src : Values)
    → lookup k (copy_into dst src) ≡ or_else (lookup k src) (lookup k dst)
unfolding copy_into lookup
lookup-copy_into k dst [] = refl
lookup-copy_into k dst ((j, v) ∷ src) =
    ground (arith, lookup-insert j v k (copy_into dst src), lookup-copy_into k dst src)

unique_keys-copy_into :
    (dst src : Values) → unique_keys dst ≡ true → unique_keys (copy_into dst src) ≡ true
unfolding copy_into
unique_keys-copy_into dst [] h = h
unique_keys-copy_into dst ((k, v) ∷ src) h =
    unique_keys-insert k v (copy_into dst src) (unique_keys-copy_into dst src h)

or_else-none : (o : Option Any) → or_else o none ≡ o
or_else-none none = refl
or_else-none (some v) = refl

-- The merged values hold each key once, and each key with the override's value where the overrides
-- have the key, and else with the value it had.
pub merge_lem :
    (v overrides : Values) (k : String)
    → (lookup k (merge v overrides) ≡ or_else (lookup k overrides) (lookup k v))
      × (unique_keys (merge v overrides) ≡ true)
unfolding merge lookup unique_keys
merge_lem v overrides k = (
  rw (lookup-copy_into k (copy_into [] v) overrides)
      (ap (or_else (lookup k overrides)) (lookup-copy_into k [] v ∙ or_else-none (lookup k v))),
  unique_keys-copy_into (copy_into [] v) overrides (unique_keys-copy_into [] v refl),
)
