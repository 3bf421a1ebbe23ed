-- ===== src/Planner/Intent.antt =====
-- internal/application/planner/service.go: the intent that a text states.
pub mod Detection
use sh_mcp_go.Prelude.{
  ℕ, String, Bool, true, false, ◌||◌, Option, none, List, [], ◌∷◌, map, Any, Result, ok, err, codes,
  contains, is_nil, if◌then◌else◌, ◌==◌,
}

-- `values` is `none` for the nil map.
pub record AppIntent : Type 0 where
  pub name : String
  pub chart_name : String
  pub repo_url : String
  pub version : String
  pub values : Option (List (String × Any))
  pub persistence : Bool
  pub ingress : Bool
  pub ha : Bool

pub record Intent : Type 0 where
  pub action : String
  pub apps : List AppIntent
  pub namespace : String

pub record Entry : Type 0 where
  pub keywords : List String
  pub app : AppIntent

abbrev app : (name chart_name repo_url : String) → (persistence ingress ha : Bool) → AppIntent
app name chart_name repo_url persistence ingress ha = record {
  name = name;
  chart_name = chart_name;
  repo_url = repo_url;
  version = "";
  values = none;
  persistence = persistence;
  ingress = ingress;
  ha = ha;
}

abbrev entry : List String → AppIntent → Entry
entry keywords a = record { keywords = keywords; app = a }

-- `strings.Contains` with a literal.
abbrev pub mentions : List ℕ → String → Bool
mentions intent kw = contains intent (codes kw)

-- The catalogue of `detectApps`, for the intent in lower case.
abbrev pub catalogue : List ℕ → List Entry
catalogue intent =
    entry ("prometheus" ∷ []) (
      app "prometheus" "kube-prometheus-stack" "https://prometheus-community.github.io/helm-charts"
        true false false)
    ∷ entry ("grafana" ∷ [])
        (app "grafana" "grafana" "https://grafana.github.io/helm-charts" true true false)
    ∷ entry ("redis" ∷ []) (
        app "redis" "redis" "https://charts.bitnami.com/bitnami" true false
          (mentions intent "ha" || mentions intent "high availability"))
    ∷ entry ("cert-manager" ∷ "cert manager" ∷ "certmanager" ∷ [])
        (app "cert-manager" "cert-manager" "https://charts.jetstack.io" false false false)
    ∷ entry ("nginx" ∷ "ingress" ∷ []) (
        app "ingress-nginx" "ingress-nginx" "https://kubernetes.github.io/ingress-nginx" false false
          false)
    ∷ entry ("istio" ∷ []) (
        app "istiod" "istiod" "https://istio-release.storage.googleapis.com/charts" false false
          false)
    ∷ entry ("loki" ∷ [])
        (app "loki" "loki" "https://grafana.github.io/helm-charts" true false false)
    ∷ entry ("velero" ∷ [])
        (app "velero" "velero" "https://vmware-tanzu.github.io/helm-charts" false false false)
    ∷ entry ("argocd" ∷ "argo cd" ∷ [])
        (app "argocd" "argo-cd" "https://argoproj.github.io/argo-helm" false true false)
    ∷ []

-- The inner loop: some keyword occurs.
unfoldable pub any_keyword : List ℕ → List String → Bool
any_keyword intent [] = false
any_keyword intent (kw ∷ kws) = mentions intent kw || any_keyword intent kws

-- The outer loop.
unfoldable pub detect : List ℕ → List Entry → List AppIntent
unfolding any_keyword
detect intent [] = []
detect intent (e ∷ entries) =
    if any_keyword intent e.keywords then e.app ∷ detect intent entries else detect intent entries

unfoldable pub detect_apps : List ℕ → List AppIntent
unfolding detect contains
detect_apps intent = detect intent (catalogue intent)

-- The `switch` of `parseIntent`.
unfoldable pub action_of : List ℕ → String
unfolding contains
action_of lower =
    if mentions lower "upgrade" || mentions lower "update"
    then "upgrade"
    else if mentions lower "rollback" || mentions lower "revert"
    then "rollback"
    else if mentions lower "uninstall" || mentions lower "remove" || mentions lower "delete"
    then "uninstall"
    else "install"

pub data PlanningError : Type 0 where
  -- `no known applications detected in intent: %q`
  no_known_applications : String → PlanningError
  -- `cluster validation failed: %v`
  invalid_cluster : List String → PlanningError
  -- `parsing intent: %w` and `building steps: %w`
  parsing_intent building_steps : PlanningError → PlanningError

-- `parseIntent`; `lower_rune` is `unicode.ToLower`, by which `strings.ToLower` maps a text.
unfoldable pub parse_intent :
    (lower_rune : ℕ → ℕ) → (intent namespace : String) → Result PlanningError Intent
unfolding detect_apps action_of
parse_intent lower_rune intent namespace =
    let lower = map lower_rune (codes intent) in
    let apps = detect_apps lower in
    if is_nil apps
    then err (no_known_applications intent)
    else ok (record {
      action = action_of lower;
      apps = apps;
      namespace = if namespace == "" then "default" else namespace;
    })
