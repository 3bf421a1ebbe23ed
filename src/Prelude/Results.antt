-- ===== src/Prelude/Results.antt =====
-- Go's pair of a result and an error.
use mathlib.Core.Path.{◌≡◌, refl}
use mathlib.Core.Logic.{◌⊎◌, inl, inr}

pub data Result {ℓ} (E : Type 0) (A : Type ℓ) : Type ℓ where
  ok : A → Result E A
  err : E → Result E A

pub Result-cases {ℓ} :
    {E : Type 0} {A : Type ℓ} (r : Result E A) → ((a : A) × (r ≡ ok a)) ⊎ ((e : E) × (r ≡ err e))
Result-cases (ok a) = inl (a, refl)
Result-cases (err e) = inr (e, refl)

pub ok_inj {ℓ} : {E : Type 0} {A : Type ℓ} {a b : A} → ◌≡◌ {A = Result E A} (ok a) (ok b) → a ≡ b
ok_inj h = cc

-- `if err != nil { return err }` between two calls.
abbrev pub and_then : {E A B : Type 0} → Result E A → (A → Result E B) → Result E B
and_then (ok a) next = next a
and_then (err e) next = err e

pub and_then-ok :
    {E A B : Type 0} (r : Result E A) (next : A → Result E B) (b : B)
    → and_then r next ≡ ok b
    → (a : A) × (r ≡ ok a) × (next a ≡ ok b)
and_then-ok (ok a) next b h = (a, refl, h)
and_then-ok (err e) next b h = cc
