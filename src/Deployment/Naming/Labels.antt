-- ===== src/Deployment/Naming/Labels.antt =====
-- The texts that the name patterns of internal/domain/deployment/value_objects.go match.
use sh_mcp_go.Prelude.{
  String, ap, refl, none, some, inl, inr, Bool-cases, codes, if◌then◌else◌, ◌==◌, eq_iff, ℕ, zero,
  suc, ◌≤◌, ◌≡◌, ◌↔◌, Bool, true, false, ◌&&◌, ◌||◌, List, [], ◌∷◌, arith, length, All,
}
use sh_mcp_go.Deployment.Errors.{Error}
use sh_mcp_go.Deployment.Naming.{
  alnum, alnum_hyphen, in_class, one, up_to, matches, name_re, release_name_re, namespace_re,
  validate_release_name, validate_namespace,
}

abbrev pub IsAlnum : ℕ → Type 0
IsAlnum c = in_class alnum c ≡ true

abbrev pub StartsAlnum : List ℕ → Type 0
StartsAlnum [] = ⊥
StartsAlnum (c ∷ s) = IsAlnum c

abbrev pub EndsAlnum : List ℕ → Type 0
EndsAlnum [] = ⊥
EndsAlnum (c ∷ []) = IsAlnum c
EndsAlnum (c ∷ d ∷ s) = EndsAlnum (d ∷ s)

-- A label: lower-case letters, digits and hyphens, at most `max` of them, with a letter or a digit
-- at both ends.
pub record IsLabel (max : ℕ) (s : List ℕ) : Type 0 where
  pub fits : length s ≤ max
  pub starts : StartsAlnum s
  pub ends : EndsAlnum s
  pub chars : All (λ c. in_class alnum_hyphen c ≡ true) s

alnum_widen : (c : ℕ) → IsAlnum c → in_class alnum_hyphen c ≡ true
unfolding in_class
alnum_widen c h = ground arith

-- What may follow the first letter.
record IsTail (n : ℕ) (s : List ℕ) : Type 0 where
  fits : length s ≤ suc n
  ends : EndsAlnum s
  chars : All (λ c. in_class alnum_hyphen c ≡ true) s

matches-IsTail :
    (n : ℕ) (s : List ℕ) → matches (up_to n alnum_hyphen ∷ one alnum ∷ []) s ≡ true → IsTail n s
unfolding matches
matches-IsTail zero [] h = cc
matches-IsTail zero (c ∷ []) h = ground (arith, alnum_widen c)
matches-IsTail zero (c ∷ d ∷ s) h = ground arith
matches-IsTail (suc n) [] h = cc
matches-IsTail (suc n) (c ∷ []) h = ground (arith, alnum_widen c)
matches-IsTail (suc n) (c ∷ d ∷ s) h = ground (arith, matches-IsTail n (d ∷ s))

IsTail-matches :
    (n : ℕ) (s : List ℕ) → IsTail n s → matches (up_to n alnum_hyphen ∷ one alnum ∷ []) s ≡ true
unfolding matches
IsTail-matches n [] t = absurd t.ends
IsTail-matches zero (c ∷ []) t = ground arith
IsTail-matches zero (c ∷ d ∷ s) t = absurd (omega (arith, t.fits))
IsTail-matches (suc n) (c ∷ []) t = ground arith
IsTail-matches (suc n) (c ∷ d ∷ s) t = ground (arith, IsTail-matches n (d ∷ s))

long_name :
    (first more : Bool) → (first && more || first && false) ≡ true → (first ≡ true) × (more ≡ true)
long_name first more h = ground arith

-- The pattern with `{0,n}` matches exactly the labels of at most n + 2 characters.
name_re-IsLabel : (n : ℕ) (s : List ℕ) → (name_re n s ≡ true) ↔ IsLabel (suc (suc n)) s
unfolding matches
name_re-IsLabel n [] = (λ h. cc, λ l. absurd l.starts)
name_re-IsLabel n (c ∷ []) =
    (λ h. ground (arith, alnum_widen c, matches-IsTail n []), λ l. ground arith)
name_re-IsLabel n (c ∷ d ∷ s) = (
  λ h.
      let (first, more) = long_name (in_class alnum c) _ h in
      let tail = matches-IsTail n (d ∷ s) more in
      record {
        fits = omega (arith, tail.fits);
        starts = first;
        ends = tail.ends;
        chars = (alnum_widen c first, tail.chars);
      },
  λ l. rw (
    l.starts,
    IsTail-matches n (d ∷ s)
        (record { fits = omega (arith, l.fits); ends = l.ends; chars = l.chars.1 }),
  ),
)

accepts :
    {P : Type 0} (b : Bool) (e : Error)
    → ((b ≡ true) ↔ P)
    → ((if b then none else some e) ≡ none) ↔ P
accepts true e iff = (λ _. iff.0 refl, λ _. refl)
accepts false e iff = (λ h. cc, λ p. cc (iff.1 p))

codes_of_empty : (r : String) → (r == "") ≡ true → codes r ≡ []
codes_of_empty r h = ap codes ((eq_iff r "").0 h)

-- `ReleaseName.Validate` returns nil for exactly the labels of at most 54 characters.
pub validate_release_name-none :
    (r : String) → (validate_release_name r ≡ none) ↔ IsLabel 54 (codes r)
unfolding validate_release_name release_name_re
validate_release_name-none r = elim (Bool-cases (r == "")) [
  | inl e ↦ (λ h. cc (rw e at h), λ l. absurd (rw (codes_of_empty r e) at l.starts))
  | inr e ↦ rw e (accepts _ _ (name_re-IsLabel 52 (codes r)))
]

-- `Namespace.Validate` returns nil for exactly the labels of at most 63 characters.
pub validate_namespace-none : (n : String) → (validate_namespace n ≡ none) ↔ IsLabel 63 (codes n)
unfolding validate_namespace namespace_re
validate_namespace-none n = elim (Bool-cases (n == "")) [
  | inl e ↦ (λ h. cc (rw e at h), λ l. absurd (rw (codes_of_empty n e) at l.starts))
  | inr e ↦ rw e (accepts _ _ (name_re-IsLabel 61 (codes n)))
]
