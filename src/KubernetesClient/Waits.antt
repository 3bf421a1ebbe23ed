-- ===== src/KubernetesClient/Waits.antt =====
-- When `WaitForRollout` of internal/adapters/kubernetes/client.go returns, and with what.
use sh_mcp_go.Prelude.{
  ℕ, ◌+◌, ◌*◌, ◌<◌, ◌≤◌, ◌≡◌, ◌≢◌, ◌↔◌, refl, ap, ◌∙◌, sym, ◌⊎◌, inl, inr, String, none, List, [],
  ◌∷◌, ◌++◌, length, All, arith,
}
use sh_mcp_go.KubernetesClient.Workloads.{
  Snapshot, Check, ready, not_ready, panicked, check_error, is_workload_ready,
}
use sh_mcp_go.KubernetesClient.Rollout.{
  Event, done, tick, Waited, waiting, returned, add_duration, deadline_after, wait_loop,
  wait_for_rollout, after_check,
}

-- The time between two ticks.
abbrev interval : ℕ
interval = 5000000000

-- The ticks come as the ticker's documentation says: each at least an interval after the one before,
-- the first after `from`.
abbrev pub Paced : (from : ℕ) → List Event → Type 0
Paced from [] = Unit
Paced from (done ∷ events) = Unit
Paced from (tick now cluster ∷ events) = (from + interval ≤ now) × Paced (from + interval) events

le_total : (a b : ℕ) → (a ≤ b) ⊎ (b < a)
le_total a b = omega arith

module _ (kind name namespace : String) (timeout_secs deadline : ℕ) where
  abbrev loop : List Event → Waited
  loop = wait_loop kind name namespace timeout_secs deadline

  abbrev check : Snapshot → Check
  check = is_workload_ready kind name namespace

  late_tick :
      (now : ℕ) (cluster : Snapshot) (events : List Event)
      → deadline < now
      → loop (tick now cluster ∷ events) ≢ waiting
  unfolding wait_loop
  late_tick now cluster events late e = ground (arith, late, e)

  tick_in_time :
      (now : ℕ) (cluster : Snapshot) (events : List Event)
      → now ≤ deadline
      → loop (tick now cluster ∷ events) ≡ after_check (check cluster) (loop events)
  unfolding wait_loop
  tick_in_time now cluster events in_time = ground (arith, in_time)

  after_check-waiting : (c : Check) (next : Waited) → after_check c next ≡ waiting → next ≡ waiting
  after_check-waiting ready next e = cc
  after_check-waiting not_ready next e = e
  after_check-waiting (check_error x) next e = e
  after_check-waiting panicked next e = cc

  wait_loop_returns :
      (from : ℕ) (events : List Event)
      → Paced from events
      → from ≤ deadline
      → deadline < from + interval * length events
      → loop events ≢ waiting
  unfolding wait_loop
  wait_loop_returns from [] paced low high e = omega (arith, low, high)
  wait_loop_returns from (done ∷ events) paced low high e = ground (arith, e)
  wait_loop_returns from (tick now cluster ∷ events) (first, paced) low high e =
      elim (le_total now deadline) [
        | inr late ↦ late_tick now cluster events late e
        | inl in_time ↦
            wait_loop_returns (from + interval) events paced (omega (arith, first, in_time))
              (omega (arith, high))
              (after_check-waiting (check cluster) (loop events)
                (sym (tick_in_time now cluster events in_time) ∙ e))
      ]

  -- The loop goes on after the event.
  abbrev pub Undecided : Event → Type 0
  Undecided done = ⊥
  Undecided (tick now cluster) =
      (now ≤ deadline) × (check cluster ≢ ready) × (check cluster ≢ panicked)

  -- A tick within the deadline finds the workload ready, after events that decide nothing.
  abbrev pub FindsReady : List Event → Type 0
  FindsReady events =
      (before : List Event) × (now : ℕ) × (cluster : Snapshot) × (after : List Event) × (events
        ≡ before ++ tick now cluster ∷ after)
      × All Undecided before
      × (now ≤ deadline)
      × (check cluster ≡ ready)

  after_check-done :
      (c : Check) (next : Waited)
      → after_check c next ≡ returned none
      → (c ≡ ready) ⊎ ((c ≢ ready) × (c ≢ panicked) × (next ≡ returned none))
  after_check-done ready next e = inl refl
  after_check-done not_ready next e = inr ((λ h. cc), (λ h. cc), e)
  after_check-done (check_error x) next e = inr ((λ h. cc), (λ h. cc), e)
  after_check-done panicked next e = cc

  after_check-on :
      (c : Check) (next : Waited) → c ≢ ready → c ≢ panicked → after_check c next ≡ next
  after_check-on ready next h k = elim (h refl) [ ]
  after_check-on not_ready next h k = refl
  after_check-on (check_error x) next h k = refl
  after_check-on panicked next h k = elim (k refl) [ ]

  late_fails :
      (now : ℕ) (cluster : Snapshot) (events : List Event)
      → deadline < now
      → loop (tick now cluster ∷ events) ≢ returned none
  unfolding wait_loop
  late_fails now cluster events late e = ground (arith, late, e)

  returned-FindsReady : (events : List Event) → loop events ≡ returned none → FindsReady events
  unfolding wait_loop
  returned-FindsReady [] e = cc
  returned-FindsReady (done ∷ events) e = cc
  returned-FindsReady (tick now cluster ∷ events) e = elim (le_total now deadline) [
    | inr late ↦ elim (late_fails now cluster events late e) [ ]
    | inl in_time ↦
        elim (after_check-done (check cluster) (loop events)
          (sym (tick_in_time now cluster events in_time) ∙ e)) [
            | inl found ↦ ([], now, cluster, events, refl, tt, in_time, found)
            | inr (unready, calm, rest) ↦
                let (before, at, then_cluster, after, split, undecided, within, found) =
                  returned-FindsReady events rest in
                (
                  tick now cluster ∷ before,
                  at,
                  then_cluster,
                  after,
                  ap (λ l. tick now cluster ∷ l) split,
                  ((in_time, unready, calm), undecided),
                  within,
                  found,
                )
          ]
  ]

  FindsReady-returned :
      (before : List Event) (now : ℕ) (cluster : Snapshot) (after : List Event)
      → All Undecided before
      → now ≤ deadline
      → check cluster ≡ ready
      → loop (before ++ tick now cluster ∷ after) ≡ returned none
  FindsReady-returned [] now cluster after undecided within found =
      tick_in_time now cluster after within ∙ ap (λ c. after_check c (loop after)) found
  FindsReady-returned (done ∷ before) now cluster after undecided within found =
      elim (undecided.0) [ ]
  FindsReady-returned (tick early state ∷ before) now cluster after (first, undecided) within
        found =
      tick_in_time early state (before ++ tick now cluster ∷ after) (first.0)
      ∙ after_check-on (check state) (loop (before ++ tick now cluster ∷ after)) (first.1) (first.2)
      ∙ FindsReady-returned before now cluster after undecided within found

module _ (kind name namespace : String) (timeout_secs start : ℕ) where
  deadline-exact :
      timeout_secs ≤ 9223372036
      → deadline_after start timeout_secs ≡ start + timeout_secs * 1000000000
  unfolding add_duration
  deadline-exact h = ground (arith, h)

  -- Where the ticks come at least five seconds apart, the first five seconds after the call or later,
  -- and the timeout is at most 9223372036 seconds, WaitForRollout has ended once more than a fifth of
  -- the timeout's seconds of ticks have come: whatever the checks find, also where each of them fails.
  pub wait_for_rollout-returns :
      (events : List Event)
      → Paced start events
      → timeout_secs ≤ 9223372036
      → timeout_secs < 5 * length events
      → wait_for_rollout kind name namespace timeout_secs start events ≢ waiting
  unfolding wait_for_rollout
  wait_for_rollout-returns events paced bounded enough =
      let exact = deadline-exact bounded in
      wait_loop_returns kind name namespace timeout_secs (deadline_after start timeout_secs) start
        events paced (omega (arith, exact)) (omega (arith, exact, enough))

  -- WaitForRollout has returned nil exactly where a tick that comes by the deadline finds the workload
  -- ready, and before it only ticks have come, by the deadline too, whose checks found it not ready or
  -- failed.
  pub wait_for_rollout-ready :
      (events : List Event)
      → (wait_for_rollout kind name namespace timeout_secs start events ≡ returned none)
        ↔ FindsReady kind name namespace timeout_secs (deadline_after start timeout_secs) events
  unfolding wait_for_rollout
  wait_for_rollout-ready events = (
    returned-FindsReady kind name namespace timeout_secs (deadline_after start timeout_secs) events,
    λ (before, now, cluster, after, split, undecided, within, found).
        ap (loop kind name namespace timeout_secs (deadline_after start timeout_secs)) split
        ∙ FindsReady-returned kind name namespace timeout_secs (deadline_after start timeout_secs)
            before now cluster after undecided within found,
  )
