-- ===== src/Planner/Intent/Detection.antt =====
-- Which applications internal/application/planner/service.go finds in a text.
use sh_mcp_go.Prelude.{
  ℕ, String, ◌≡◌, ◌↔◌, inl, inr, refl, sym, ap, subst, mem-if_cases, mem-if_tail, true, List, [],
  ◌∷◌, ◌++◌, arith, codes, is_prefix, contains, ||_cases, ||_left, ||_right, eqb, &&_parts,
}
use mathlib.Core.List.{Memᴰ}
use sh_mcp_go.Planner.Intent.{
  AppIntent, Entry, mentions, catalogue, any_keyword, detect, detect_apps,
}

-- The text occurs in `s`.
pub record Occurs (sub s : List ℕ) : Type 0 where
  pub before : List ℕ
  pub after : List ℕ
  pub split : s ≡ before ++ (sub ++ after)

is_prefix-split : (p s : List ℕ) → is_prefix p s ≡ true → (after : List ℕ) × (s ≡ p ++ after)
unfolding is_prefix
is_prefix-split [] s h = (s, refl)
is_prefix-split (c ∷ p) [] h = cc
is_prefix-split (c ∷ p) (d ∷ s) h =
    let (same, rest) = &&_parts (eqb c d) (is_prefix p s) h in
    let (after, e) = is_prefix-split p s rest in let e' : d ≡ c = ground arith in (after, cc)

is_prefix-append : (p after : List ℕ) → is_prefix p (p ++ after) ≡ true
unfolding is_prefix
is_prefix-append [] after = refl
is_prefix-append (c ∷ p) after = ground (arith, is_prefix-append p after)

contains-Occurs : (s sub : List ℕ) → contains s sub ≡ true → Occurs sub s
unfolding contains
contains-Occurs [] sub h =
    let (after, e) = is_prefix-split sub [] h in record { before = []; after = after; split = e }
contains-Occurs (c ∷ s) sub h = elim (||_cases (is_prefix sub (c ∷ s)) (contains s sub) h) [
  | inl here ↦
      let (after, e) = is_prefix-split sub (c ∷ s) here in
      record { before = []; after = after; split = e }
  | inr more ↦
      let later = contains-Occurs s sub more in
      record { before = c ∷ later.before; after = later.after; split = ap (λ t. c ∷ t) later.split }
]

contains-append : (before sub after : List ℕ) → contains (before ++ (sub ++ after)) sub ≡ true
unfolding contains
contains-append [] [] [] = refl
contains-append [] [] (c ∷ after) = refl
contains-append [] (c ∷ sub) after = ||_left _ _ (is_prefix-append (c ∷ sub) after)
contains-append (c ∷ before) sub after = ||_right _ _ (contains-append before sub after)

-- `strings.Contains` finds exactly the texts that occur.
pub contains_iff : (s sub : List ℕ) → (contains s sub ≡ true) ↔ Occurs sub s
contains_iff s sub = (
  contains-Occurs s sub,
  λ o. subst (λ t. contains t sub ≡ true) (sym o.split) (contains-append o.before sub o.after),
)

-- A keyword of the entry occurs in the intent.
pub record IsNamed (intent : List ℕ) (e : Entry) : Type 0 where
  pub keyword : String
  pub listed : Memᴰ keyword e.keywords
  pub occurs : Occurs (codes keyword) intent

-- The application is that of an entry that the intent names.
pub record IsDetected (intent : List ℕ) (entries : List Entry) (a : AppIntent) : Type 0 where
  pub entry : Entry
  pub member : Memᴰ entry entries
  pub same : entry.app ≡ a
  pub named : IsNamed intent entry

any_keyword-IsNamed :
    (intent : List ℕ) (kws : List String)
    → any_keyword intent kws ≡ true
    → (kw : String) × Memᴰ kw kws × Occurs (codes kw) intent
unfolding any_keyword
any_keyword-IsNamed intent [] h = cc
any_keyword-IsNamed intent (kw ∷ kws) h =
    elim (||_cases (mentions intent kw) (any_keyword intent kws) h) [
      | inl here ↦ (kw, Memᴰ.head refl, contains-Occurs intent (codes kw) here)
      | inr more ↦ let (k, m, o) = any_keyword-IsNamed intent kws more in (k, Memᴰ.tail m, o)
    ]

any_keyword_of_mem :
    (intent : List ℕ) (kws : List String) (kw : String)
    → Memᴰ kw kws
    → mentions intent kw ≡ true
    → any_keyword intent kws ≡ true
unfolding any_keyword
any_keyword_of_mem intent [] kw m h = elim m [ ]
any_keyword_of_mem intent (k ∷ kws) kw (Memᴰ.head e) h =
    ||_left _ _ (subst (λ x. mentions intent x ≡ true) e h)
any_keyword_of_mem intent (k ∷ kws) kw (Memᴰ.tail m) h =
    ||_right _ _ (any_keyword_of_mem intent kws kw m h)

any_keyword_iff :
    (intent : List ℕ) (e : Entry) → (any_keyword intent e.keywords ≡ true) ↔ IsNamed intent e
any_keyword_iff intent e = (
  λ h.
      let (k, m, o) = any_keyword-IsNamed intent e.keywords h in
      record { keyword = k; listed = m; occurs = o },
  λ n.
      any_keyword_of_mem intent e.keywords n.keyword n.listed
        ((contains_iff intent (codes n.keyword)).1 n.occurs),
)

IsDetected-tail :
    {intent : List ℕ} {entries : List Entry} {a : AppIntent} (e : Entry)
    → IsDetected intent entries a
    → IsDetected intent (e ∷ entries) a
IsDetected-tail e d = record {
  entry = d.entry;
  member = Memᴰ.tail d.member;
  same = d.same;
  named = d.named;
}

detect-IsDetected :
    (intent : List ℕ) (entries : List Entry) (a : AppIntent)
    → Memᴰ a (detect intent entries)
    → IsDetected intent entries a
unfolding detect
detect-IsDetected intent [] a m = elim m [ ]
detect-IsDetected intent (e ∷ entries) a m =
    elim (mem-if_cases (any_keyword intent e.keywords) e.app (detect intent entries) m) [
      | inl (named, same) ↦ record {
        entry = e;
        member = Memᴰ.head refl;
        same = sym same;
        named = (any_keyword_iff intent e).0 named;
      }
      | inr more ↦ IsDetected-tail e (detect-IsDetected intent entries a more)
    ]

mem-detect :
    (intent : List ℕ) (entries : List Entry) (e : Entry)
    → Memᴰ e entries
    → IsNamed intent e
    → Memᴰ e.app (detect intent entries)
unfolding detect
mem-detect intent [] e m n = elim m [ ]
mem-detect intent (f ∷ entries) e (Memᴰ.head same) n =
    rw ((any_keyword_iff intent f).1 (subst (IsNamed intent) same n))
      (Memᴰ.head (ap (λ x. x.app) same))
mem-detect intent (f ∷ entries) e (Memᴰ.tail m) n =
    mem-if_tail (any_keyword intent f.keywords) f.app (detect intent entries)
      (mem-detect intent entries e m n)

-- The applications found are exactly those of the catalogue's entries of which some keyword occurs in
-- the intent, wherever in it.
pub mem-detect_apps :
    (intent : List ℕ) (a : AppIntent)
    → Memᴰ a (detect_apps intent) ↔ IsDetected intent (catalogue intent) a
unfolding detect_apps
mem-detect_apps intent a = (
  detect-IsDetected intent (catalogue intent) a,
  λ d.
      subst (λ x. Memᴰ x (detect intent (catalogue intent))) d.same
        (mem-detect intent (catalogue intent) d.entry d.member d.named),
)
