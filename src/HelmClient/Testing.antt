-- ===== src/HelmClient/Testing.antt =====
-- `TestRelease` of internal/adapters/helm/client.go.
use sh_mcp_go.Prelude.{
  ℕ, suc, String, Bool, true, false, none, some, List, [], ◌∷◌, Result, ok, err, ltb, concat,
  is_nil, if◌then◌else◌, ◌==◌,
}
use sh_mcp_go.HelmClient.Errors.{Error, during}
use sh_mcp_go.HelmClient.Releases.{Hook, RawRelease, release, other_release}
use sh_mcp_go.HelmClient.Answers.{TestResult}
use sh_mcp_go.HelmClient.Actions.{TestingAction}
use sh_mcp_go.HelmClient.Parameters.{timeout_for}
use sh_mcp_go.HelmClient.Sdk.{Sdk, World, Settings}

unfoldable pub has_event : (event : String) → List String → Bool
has_event event [] = false
has_event event (e ∷ events) = if e == event then true else has_event event events

abbrev pub status_of : (failed : ℕ) → String
status_of failed = if ltb 0 failed then "failed" else "passed"

module _ (sdk : Sdk) where
  abbrev pub hook_message : Hook → String
  unfolding concat
  hook_message hook = concat (hook.name ∷ ": " ∷ hook.phase ∷ [])

  -- `collectTestHookResults`: the counts and the messages.
  unfoldable pub collect_test_hook_results : List Hook → ℕ × ℕ × List String
  unfolding has_event concat
  collect_test_hook_results [] = (0, 0, [])
  collect_test_hook_results (hook ∷ hooks) =
      let (passed, failed, messages) = collect_test_hook_results hooks in
      if has_event (sdk.hook_test) (hook.events)
      then (
        if hook.phase == sdk.hook_phase_succeeded then suc passed else passed,
        if hook.phase == sdk.hook_phase_succeeded
            then failed
            else if hook.phase == sdk.hook_phase_failed
            then suc failed
            else failed,
        hook_message hook ∷ messages,
      )
      else (passed, failed, messages)

  unfoldable pub testing_action :
      (default_timeout : ℕ)
      → (namespace : String) → (timeout : ℕ) → (filters : List String) → TestingAction
  unfolding timeout_for
  testing_action default_timeout namespace timeout filters = record {
    config = namespace;
    namespace = namespace;
    timeout = timeout_for default_timeout timeout;
    filters = if is_nil filters then none else some filters;
  }

  -- The hooks of the release that a test returns, none where it is of another type.
  abbrev pub tested_hooks : RawRelease → List Hook
  tested_hooks (release rel) = rel.hooks
  tested_hooks other_release = []

  unfoldable pub test_result : (name namespace : String) → RawRelease → TestResult
  unfolding collect_test_hook_results
  test_result name namespace raw =
      let (passed, failed, messages) = collect_test_hook_results (tested_hooks raw) in
      record {
        release_name = name;
        namespace = namespace;
        status = status_of failed;
        passed = passed;
        failed = failed;
        messages = messages;
      }

  abbrev pub after_test :
      (name namespace : String)
      → sdk.Cluster × Result Error RawRelease
      → World sdk
      → World sdk × Result Error TestResult
  unfolding test_result
  after_test name namespace (c, ok raw) w =
      (record w { cluster = c }, ok (test_result name namespace raw))
  after_test name namespace (c, err e) w =
      (record w { cluster = c }, err (during "helm test" name e))

  -- `TestRelease`; the shutdown that the SDK may return is left out.
  unfoldable pub test_release :
      Settings
      → (name namespace : String) → (timeout : ℕ) → (filters : List String) → World sdk
      → World sdk × Result Error TestResult
  unfolding testing_action test_result
  test_release settings name namespace timeout filters w = elim (sdk.init namespace) [
    | some e ↦ (w, err e)
    | none ↦
        after_test name namespace
          (sdk.run_testing (testing_action (settings.default_timeout) namespace timeout filters)
            name (w.cluster))
          w
  ]
