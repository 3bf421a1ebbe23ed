-- ===== src/KubernetesClient/Rollout.antt =====
-- `WaitForRollout` of internal/adapters/kubernetes/client.go.
use sh_mcp_go.Prelude.{
  ℕ, ◌+◌, ◌-◌, ◌*◌, ◌%◌, ◌^◌, String, Option, none, some, List, [], ◌∷◌, ltb, if◌then◌else◌,
}
use sh_mcp_go.KubernetesClient.Api.{Error, rollout_timeout, cancelled}
use sh_mcp_go.KubernetesClient.Workloads.{
  Snapshot, Check, ready, not_ready, panicked, check_error, is_workload_ready,
}

-- What the `select` of the loop receives: the end of the context, or a tick, with the time and the
-- cluster as they are then.
pub data Event : Type 0 where
  done : Event
  tick : (now : ℕ) → Snapshot → Event

-- How far the loop has come: it waits for the next event, has returned or has panicked.
pub data Waited : Type 0 where
  waiting wait_panicked : Waited
  returned : Option Error → Waited

-- `t.Add(d)` for a duration d as the bits of an `int64`.
unfoldable pub add_duration : (t d : ℕ) → ℕ
add_duration t d = if ltb d (2 ^ 63) then t + d else t - (2 ^ 64 - d)

abbrev pub deadline_after : (start timeout_secs : ℕ) → ℕ
unfolding add_duration
deadline_after start timeout_secs = add_duration start (timeout_secs * 1000000000 % 2 ^ 64)

-- After a check: the loop goes on unless the workload is ready.
abbrev pub after_check : Check → (next : Waited) → Waited
after_check ready next = returned none
after_check not_ready next = next
after_check (check_error e) next = next
after_check panicked next = wait_panicked

module _ (kind name namespace : String) (timeout_secs deadline : ℕ) where
  -- The loop, over the events that have come.
  unfoldable pub wait_loop : List Event → Waited
  unfolding is_workload_ready
  wait_loop [] = waiting
  wait_loop (done ∷ events) = returned (some cancelled)
  wait_loop (tick now cluster ∷ events) =
      let next = wait_loop events in
      if ltb deadline now
      then returned (some (rollout_timeout kind name timeout_secs))
      else after_check (is_workload_ready kind name namespace cluster) next

-- `WaitForRollout`, called at the time `start`.
unfoldable pub wait_for_rollout :
    (kind name namespace : String) → (timeout_secs start : ℕ) → List Event → Waited
unfolding wait_loop add_duration
wait_for_rollout kind name namespace timeout_secs start events =
    wait_loop kind name namespace timeout_secs (deadline_after start timeout_secs) events
