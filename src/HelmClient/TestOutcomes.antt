-- ===== src/HelmClient/TestOutcomes.antt =====
-- What `TestRelease` of internal/adapters/helm/client.go reports of the hooks.
use sh_mcp_go.Prelude.{
  zero, ℕ, suc, ◌+◌, ◌≤◌, ◌≡◌, ◌≢◌, ◌↔◌, refl, String, true, List, [], ◌∷◌, arith, Bool-cases, ◌⊎◌,
  inl, inr, length, ◌==◌, eq_iff, subst,
}
use mathlib.Core.List.{Memᴰ}
use mathlib.Core.List.Memᴰ
use sh_mcp_go.HelmClient.Releases.{Hook, RawRelease}
use sh_mcp_go.HelmClient.Sdk.{Sdk}
use sh_mcp_go.HelmClient.Testing.{
  has_event, collect_test_hook_results, test_result, tested_hooks, status_of,
}

-- One case by the texts, one by the numbers.
reported_failed : (n : ℕ) → status_of n ≡ "failed" → 1 ≤ n
reported_failed zero e =
    let same : ("passed" == "failed") ≡ true = (eq_iff "passed" "failed").1 e in
    ground (arith, same)
reported_failed (suc n) e = omega arith

failed_reported : (n : ℕ) → 1 ≤ n → status_of n ≡ "failed"
failed_reported n h = ground (arith, h)

module _ (sdk : Sdk) where
  abbrev failures : List Hook → ℕ
  failures hooks = (collect_test_hook_results sdk hooks).1

  -- The hook is run by a test, and it failed.
  abbrev pub FailedTest : Hook → Type 0
  FailedTest hook =
      (has_event (sdk.hook_test) (hook.events) ≡ true) × (hook.phase ≡ sdk.hook_phase_failed)

  counts_bounded :
      (hooks : List Hook)
      → ((collect_test_hook_results sdk hooks).0 + failures hooks
          ≤ length ((collect_test_hook_results sdk hooks).2))
        × (length ((collect_test_hook_results sdk hooks).2) ≤ length hooks)
  unfolding collect_test_hook_results
  counts_bounded [] = (omega arith, omega arith)
  counts_bounded (hook ∷ hooks) =
      let later = counts_bounded hooks in (ground (arith, later), ground (arith, later))

  none_failed : 1 ≤ failures [] → ⊥
  unfolding collect_test_hook_results
  none_failed h = omega (arith, h)

  module _ (apart : sdk.hook_phase_succeeded ≢ sdk.hook_phase_failed) where
    failed_in_front :
        (hook : Hook) (hooks : List Hook)
        → FailedTest hook
        → failures (hook ∷ hooks) ≡ suc (failures hooks)
    unfolding collect_test_hook_results
    failed_in_front hook hooks f = ground (
      arith,
      f,
      apart,
      eq_iff (hook.phase) (sdk.hook_phase_succeeded),
      eq_iff (hook.phase) (sdk.hook_phase_failed),
    )

    kept_in_front : (hook : Hook) (hooks : List Hook) → failures hooks ≤ failures (hook ∷ hooks)
    unfolding collect_test_hook_results
    kept_in_front hook hooks = ground arith

    failed_or_kept :
        (hook : Hook) (hooks : List Hook)
        → FailedTest hook ⊎ (failures (hook ∷ hooks) ≡ failures hooks)
    unfolding collect_test_hook_results
    failed_or_kept hook hooks = elim (Bool-cases (has_event (sdk.hook_test) (hook.events))) [
      | inr skipped ↦ inr (ground (arith, skipped))
      | inl test ↦ elim (Bool-cases (hook.phase == sdk.hook_phase_succeeded)) [
        | inl passed ↦ inr (ground (arith, test, passed))
        | inr other ↦ elim (Bool-cases (hook.phase == sdk.hook_phase_failed)) [
          | inl e ↦ inl (test, (eq_iff (hook.phase) (sdk.hook_phase_failed)).0 e)
          | inr stuck ↦ inr (ground (arith, test, other, stuck))
        ]
      ]
    ]

    failure-counted :
        (hooks : List Hook) (hook : Hook) → Memᴰ hook hooks → FailedTest hook → 1 ≤ failures hooks
    failure-counted [] hook m f = elim m [ ]
    failure-counted (first ∷ hooks) hook m f = elim (Memᴰ.cases_cons m) [
      | inl e ↦
          let one_more = failed_in_front first hooks (subst FailedTest e f) in
          omega (arith, one_more)
      | inr k ↦ omega (arith, kept_in_front first hooks, failure-counted hooks hook k f)
    ]

    counted-failure :
        (hooks : List Hook) → 1 ≤ failures hooks → (hook : Hook) × Memᴰ hook hooks × FailedTest hook
    counted-failure [] h = elim (none_failed h) [ ]
    counted-failure (hook ∷ hooks) h = elim (failed_or_kept hook hooks) [
      | inl f ↦ (hook, Memᴰ.head refl, f)
      | inr same ↦
          let (found, m, f) = counted-failure hooks (subst (λ n. 1 ≤ n) same h) in
          (found, Memᴰ.tail m, f)
    ]

    -- Where the SDK tells a hook that succeeded from one that failed, a finished `TestRelease` reports
    -- "failed" exactly where a hook of the release that listens to the test event has failed, and the
    -- numbers of passed and failed hooks are together at most the number of messages, which is at most
    -- that of the hooks.
    pub test_result-status :
        (name namespace : String) (raw : RawRelease)
        → (((test_result sdk name namespace raw).status ≡ "failed")
            ↔ ((hook : Hook) × Memᴰ hook (tested_hooks sdk raw) × FailedTest hook))
          × ((test_result sdk name namespace raw).passed
                + (test_result sdk name namespace raw).failed
              ≤ length ((test_result sdk name namespace raw).messages))
          × (length ((test_result sdk name namespace raw).messages) ≤ length (tested_hooks sdk raw))
    unfolding test_result
    test_result-status name namespace raw =
        let hooks = tested_hooks sdk raw in
        (
          (
            λ e. counted-failure hooks (reported_failed (failures hooks) e),
            λ (hook, m, f). failed_reported (failures hooks) (failure-counted hooks hook m f),
          ),
          (counts_bounded hooks).0,
          (counts_bounded hooks).1,
        )
