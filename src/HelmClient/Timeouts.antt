-- ===== src/HelmClient/Timeouts.antt =====
-- The timeouts that internal/adapters/helm/client.go gives to the SDK's actions.
use sh_mcp_go.Prelude.{ℕ, ◌*◌, ◌^◌, ◌<◌, ◌≤◌, ◌≡◌, ap, ◌∙◌, some, arith}
use sh_mcp_go.HelmClient.Requests.{
  HelmInstallRequest, HelmUpgradeRequest, HelmRollbackRequest, HelmUninstallRequest,
}
use sh_mcp_go.HelmClient.Parameters.{
  seconds, timeout_for, install_action, upgrade_action, rollback_action, uninstall_action,
}

-- The most seconds whose nanoseconds an `int64` holds.
abbrev max_seconds : ℕ
max_seconds = 9223372036

seconds_exact : (n : ℕ) → n ≤ max_seconds → seconds n ≡ n * 1000000000
seconds_exact n h = omega (arith, h)

timeout_exact : (default n : ℕ) → 1 ≤ n → n ≤ max_seconds → timeout_for default n ≡ n * 1000000000
unfolding timeout_for
timeout_exact default n low high = ground (arith, low, high)

uninstall_exact :
    (d : HelmUninstallRequest) (n : ℕ)
    → 1 ≤ n
    → n ≤ max_seconds
    → d.timeout ≡ n
    → (uninstall_action d).timeout ≡ some (n * 1000000000)
unfolding uninstall_action
uninstall_exact d n low high same = ground (arith, low, high, same)

-- Where the four requests give a timeout of the same number of seconds, from 1 to 9223372036, the
-- actions of an install, an upgrade, a rollback and an uninstall have just that time in nanoseconds,
-- which an `int64` holds: nothing is lost in the multiplication.
pub action_timeouts :
    (default n : ℕ) (i : HelmInstallRequest) (u : HelmUpgradeRequest) (r : HelmRollbackRequest)
    (d : HelmUninstallRequest)
    → 1 ≤ n
    → n ≤ 9223372036
    → i.timeout ≡ n
    → u.timeout ≡ n
    → r.timeout ≡ n
    → d.timeout ≡ n
    → ((install_action default i).timeout ≡ n * 1000000000)
      × ((upgrade_action default u).timeout ≡ n * 1000000000)
      × ((rollback_action default r).timeout ≡ n * 1000000000)
      × ((uninstall_action d).timeout ≡ some (n * 1000000000))
      × (n * 1000000000 < 2 ^ 63)
unfolding install_action upgrade_action rollback_action uninstall_action
action_timeouts default n i u r d low high hi hu hr hd =
    let exact = timeout_exact default n low high in
    (
      ap (timeout_for default) hi ∙ exact,
      ap (timeout_for default) hu ∙ exact,
      ap (timeout_for default) hr ∙ exact,
      uninstall_exact d n low high hd,
      omega (arith, high),
    )
