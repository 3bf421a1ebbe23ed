-- ===== src/Prelude/Lists.antt =====
-- Lists measured by native numbers, under the library's names, and predicates on them by recursion.
use Prim.Native.Nat.{ℕ, suc, ◌+◌}
use mathlib.Core.Path.{◌≡◌, refl}
use mathlib.Core.List.{List, [], ◌∷◌, ◌++◌}
use mathlib.Core.List.{Memᴰ}
use mathlib.Core.List.Memᴰ
use mathlib.Core.Logic.{◌⊎◌, inl, inr}
use mathlib.Core.Bool.{Bool, true, false}
use sh_mcp_go.Prelude.Tests.{if◌then◌else◌}
use native.Mathlib.Omega.{arith}

module _ {ℓ} {A : Type ℓ} where
  abbrev pub length : List A → ℕ
  length [] = 0
  length (x ∷ xs) = suc (length xs)

  pub length-append : (xs ys : List A) → length (xs ++ ys) ≡ length xs + length ys
  length-append [] ys = omega arith
  length-append (x ∷ xs) ys = omega (arith, length-append xs ys)

  abbrev pub All {κ} : (A → Type κ) → List A → Type κ
  All P [] = Unit
  All P (x ∷ xs) = P x × All P xs

  pub All-append {κ} : (P : A → Type κ) (xs ys : List A) → All P xs → All P ys → All P (xs ++ ys)
  All-append P [] ys h k = k
  All-append P (x ∷ xs) ys h k = (h.0, All-append P xs ys h.1 k)

  -- A member of a list that a test puts an element in front of.
  pub mem-if_cases :
      (b : Bool) (x : A) (r : List A) {a : A}
      → Memᴰ a (if b then x ∷ r else r)
      → (b ≡ true) × (a ≡ x) ⊎ Memᴰ a r
  mem-if_cases true x r m = elim (Memᴰ.cases_cons m) [ inl e ↦ inl (refl, e) | inr k ↦ inr k ]
  mem-if_cases false x r m = inr m

  pub mem-if_tail :
      (b : Bool) (x : A) (r : List A) {a : A} → Memᴰ a r → Memᴰ a (if b then x ∷ r else r)
  mem-if_tail true x r m = Memᴰ.tail m
  mem-if_tail false x r m = m
