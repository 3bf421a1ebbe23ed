-- ===== src/Deployment/Creation.antt =====
-- When internal/domain/deployment/entity.go makes an aggregate.
use sh_mcp_go.Prelude.{ok, String, ◌≡◌, ◌↔◌, Bool, arith, Option, none, codes}
use sh_mcp_go.Deployment.Errors.{Error}
use sh_mcp_go.Deployment.Naming.{validate_release_name, validate_namespace}
use sh_mcp_go.Deployment.Naming.Labels.{
  IsLabel, validate_release_name-none, validate_namespace-none,
}
use sh_mcp_go.Deployment.Chart.{ChartReference, validate_chart}
use sh_mcp_go.Deployment.Values.{Values}
use sh_mcp_go.Deployment.Events.{Moment}
use sh_mcp_go.Deployment.Entity.{Deployment, unless, initial, new}

unless-eq-ok :
    (a b c : Option Error) (x d : Deployment)
    → (unless a (unless b (unless c (ok x))) ≡ ok d)
      ↔ ((a ≡ none) × (b ≡ none) × (c ≡ none) × (d ≡ x))
unless-eq-ok a b c x d = (λ h. ground arith, λ h. ground arith)

-- `New` succeeds exactly when the release name is a label of at most 54 characters, the namespace is
-- one of at most 63, and the chart reference is valid; the aggregate is then the initial one.
pub new-ok_iff :
    (is_semver : String → Bool) (m : Moment) (id name ns : String) (chart : ChartReference)
    (values : Values) (d : Deployment)
    → (new is_semver m id name ns chart values ≡ ok d) ↔ (
        (d ≡ initial m id name ns chart values)
        × IsLabel 54 (codes name)
        × IsLabel 63 (codes ns)
        × (validate_chart is_semver chart ≡ none))
unfolding new
new-ok_iff is_semver m id name ns chart values d =
    let valid =
      unless-eq-ok (validate_release_name name) (validate_namespace ns)
        (validate_chart is_semver chart) (initial m id name ns chart values) d in
    let names = validate_release_name-none name in
    let spaces = validate_namespace-none ns in
    (
      λ h. let (a, b, c, e) = valid.0 h in (e, names.0 a, spaces.0 b, c),
      λ (e, a, b, c). valid.1 (names.1 a, spaces.1 b, c, e),
    )
