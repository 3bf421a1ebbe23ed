-- ===== src/Cluster/Analysis.antt =====
-- `GenerateRCA` of internal/application/cluster/service.go.
use sh_mcp_go.Prelude.{
  ℕ, suc, ◌+◌, String, ◌≡◌, ◌⊎◌, inl, inr, refl, sym, ◌∙◌, subst, Bool, true, false, List, [], ◌∷◌,
  Result, ok, err, concat, All, is_nil, if◌then◌else◌, ◌≢◌,
}
use Prim.Native.String.{◌++◌}
use text.Mathlib.TextLemmas.{append_assoc, append-nil}
use sh_mcp_go.Deployment.Errors.{Error, wrapped}

-- `other` holds the strings that name no declared status.
pub data HealthStatus : Type 0 where
  healthy degraded unhealthy unknown : HealthStatus
  other : String → HealthStatus

-- The fields of `cluster.ResourceHealth` that the method reads.
pub record ResourceHealth : Type 0 where
  pub kind : String
  pub name : String
  pub status : HealthStatus
  pub message : String

unfoldable pub health_text : HealthStatus → String
health_text healthy = "HEALTHY"
health_text degraded = "DEGRADED"
health_text unhealthy = "UNHEALTHY"
health_text unknown = "UNKNOWN"
health_text (HealthStatus.other s) = s

abbrev pub is_healthy : HealthStatus → Bool
is_healthy healthy = true
is_healthy _ = false

-- `rrca`.
unfoldable pub rrca : HealthStatus → String
rrca degraded =
    "Check pod events with kubectl describe; consider increasing replica count or resource limits"
rrca unhealthy = "Pod is crash-looping or OOMKilled; review logs and adjust memory limits"
rrca healthy = "Resource is healthy; no action required"
rrca unknown = "Status unknown; check cluster connectivity and node health"
rrca (HealthStatus.other s) = "Status unknown; check cluster connectivity and node health"

-- The text for one resource.
unfoldable pub line_of : ResourceHealth → String
unfolding health_text rrca
line_of h = concat (
    "["
    ∷ health_text h.status
    ∷ "] "
    ∷ h.kind
    ∷ "/"
    ∷ h.name
    ∷ ": "
    ∷ h.message
    ∷ " — "
    ∷ rrca h.status
    ∷ [])

-- The first loop.
unfoldable pub analyse : List ResourceHealth → List String
unfolding line_of
analyse [] = []
analyse (h ∷ hs) = if is_healthy h.status then analyse hs else line_of h ∷ analyse hs

-- What is reported of a resource: its status, its kind, its name, its message and the advice for the
-- status.
abbrev pub sick_text : ResourceHealth → String
sick_text h =
    "["
    ++ health_text h.status
    ++ "] "
    ++ h.kind
    ++ "/"
    ++ h.name
    ++ ": "
    ++ h.message
    ++ " — "
    ++ rrca h.status

line_of_lem : (h : ResourceHealth) → line_of h ≡ sick_text h
unfolding line_of concat
line_of_lem h = rw (append-nil (rrca h.status))

status_cases : (s : HealthStatus) → (s ≡ healthy) ⊎ ((s ≢ healthy) × (is_healthy s ≡ false))
status_cases healthy = inl refl
status_cases degraded = inr ((λ e. cc), refl)
status_cases unhealthy = inr ((λ e. cc), refl)
status_cases unknown = inr ((λ e. cc), refl)
status_cases (HealthStatus.other s) = inr ((λ e. cc), refl)

is_nil-cases : (l : List String) → (l ≡ []) ⊎ ((l ≢ []) × (is_nil l ≡ false))
is_nil-cases [] = inl refl
is_nil-cases (x ∷ l) = inr ((λ e. cc), refl)

-- `decimal` and `quote` are `%d` and `%q`.
module _ (decimal : ℕ → String) (quote : String → String) where
  -- The second loop, from index `i` on.
  unfoldable pub numbered : (i : ℕ) → (result : String) → List String → String
  numbered i result [] = result
  numbered i result (a ∷ rest) =
      numbered (suc i) (concat (result ∷ decimal (i + 1) ∷ ". " ∷ a ∷ "\n" ∷ [])) rest

  unfoldable pub healthy_text : (release_name ns : String) → String
  healthy_text release_name ns = concat (
      "Release "
      ∷ quote release_name
      ∷ " in namespace "
      ∷ quote ns
      ∷ " appears healthy. No issues detected."
      ∷ [])

  unfoldable pub heading : (release_name ns : String) → String
  heading release_name ns =
      concat ("Root Cause Analysis for " ∷ quote release_name ∷ " in " ∷ quote ns ∷ ":\n\n" ∷ [])

  -- `GenerateRCA`, by the answer of the Kubernetes port.
  unfoldable pub generate_rca :
      (release_name ns : String)
      → (resource_health : Result Error (List ResourceHealth)) → Result Error String
  unfolding analyse numbered healthy_text heading
  generate_rca release_name ns (err e) = err (wrapped "getting resource health" e)
  generate_rca release_name ns (ok hs) =
      if is_nil (analyse hs)
      then ok (healthy_text release_name ns)
      else ok (numbered 0 (heading release_name ns) (analyse hs))

  -- The lines of a report, numbered from `i + 1` on: none for a HEALTHY resource, one for each other,
  -- in order, with its status, its kind, its name, its message and the advice for the status.
  pub data Lines : (i : ℕ) → List ResourceHealth → List String → Type 0 where
    done : (i : ℕ) → Lines i [] []
    skipped :
        (i : ℕ) (h : ResourceHealth) (hs : List ResourceHealth) (lines : List String)
        → h.status ≡ healthy
        → Lines i hs lines
        → Lines i (h ∷ hs) lines
    told :
        (i : ℕ) (h : ResourceHealth) (hs : List ResourceHealth) (lines : List String)
        → h.status ≢ healthy
        → Lines (suc i) hs lines
        → Lines i (h ∷ hs) ((decimal (i + 1) ++ ". " ++ sick_text h ++ "\n") ∷ lines)

  -- The text of the second loop for each line.
  abbrev counted : (i : ℕ) → List String → List String
  counted i [] = []
  counted i (a ∷ rest) = (decimal (i + 1) ++ ". " ++ a ++ "\n") ∷ counted (suc i) rest

  numbered-concat :
      (i : ℕ) (result : String) (l : List String)
      → numbered i result l ≡ result ++ concat (counted i l)
  unfolding numbered concat
  numbered-concat i result [] = sym (append-nil result)
  numbered-concat i result (a ∷ rest) =
      numbered-concat (suc i) (concat (result ∷ decimal (i + 1) ∷ ". " ∷ a ∷ "\n" ∷ [])) rest
      ∙ append_assoc result (decimal (i + 1) ++ ". " ++ a ++ "\n") (concat (counted (suc i) rest))

  counted-filled : (l : List String) → l ≢ [] → counted 0 l ≢ []
  counted-filled [] filled e = filled refl
  counted-filled (a ∷ l) filled e = cc

  analyse-Lines : (i : ℕ) (hs : List ResourceHealth) → Lines i hs (counted i (analyse hs))
  unfolding analyse
  analyse-Lines i [] = done i
  analyse-Lines i (h ∷ hs) = elim (status_cases h.status) [
    | inl e ↦
        let same : analyse (h ∷ hs) ≡ analyse hs = rw e in
        subst (λ l. Lines i (h ∷ hs) (counted i l)) (sym same)
          (skipped i h hs _ e (analyse-Lines i hs))
    | inr (sick, e) ↦
        let same : analyse (h ∷ hs) ≡ sick_text h ∷ analyse hs = rw (e, line_of_lem h) in
        subst (λ l. Lines i (h ∷ hs) (counted i l)) (sym same)
          (told i h hs _ sick (analyse-Lines (suc i) hs))
  ]

  analyse-All : (hs : List ResourceHealth) → analyse hs ≡ [] → All (λ h. h.status ≡ healthy) hs
  unfolding analyse
  analyse-All [] e = tt
  analyse-All (h ∷ hs) e = elim (status_cases h.status) [
    | inl fine ↦
        let same : analyse (h ∷ hs) ≡ analyse hs = rw fine in (fine, analyse-All hs (sym same ∙ e))
    | inr (sick, flagged) ↦ let same : analyse (h ∷ hs) ≡ line_of h ∷ analyse hs = rw flagged in cc
  ]

  -- Where the port answers, `GenerateRCA` says that the release is healthy, and then every resource is
  -- HEALTHY, or its text is the heading and the lines of the resources that are not, of which there is
  -- one at least: in order, numbered from 1, each with the resource's status, kind, name and message and
  -- the advice for the status.
  pub generate_rca_lem :
      (release_name ns : String) (hs : List ResourceHealth)
      → ((generate_rca release_name ns (ok hs) ≡ ok (healthy_text release_name ns))
          × All (λ h. h.status ≡ healthy) hs)
        ⊎ ((lines : List String) × Lines 0 hs lines
            × (lines ≢ [])
            × (generate_rca release_name ns (ok hs) ≡ ok (heading release_name ns ++ concat lines)))
  unfolding generate_rca
  generate_rca_lem release_name ns hs = elim (is_nil-cases (analyse hs)) [
    | inl e ↦ inl (rw (e, generate_rca), analyse-All hs e)
    | inr (some_left, e) ↦ inr (
      counted 0 (analyse hs),
      analyse-Lines 0 hs,
      counted-filled (analyse hs) some_left,
      rw (e, generate_rca, numbered-concat 0 (heading release_name ns) (analyse hs)),
    )
  ]
