-- ===== src/Samples/Kubernetes.antt =====
-- The theorems on internal/adapters/kubernetes/client.go at concrete inputs.
use sh_mcp_go.Prelude.{ℕ, ◌≡◌, ◌≢◌, ◌↔◌, none, some, List, [], ◌∷◌, err, ok, arith}
use sh_mcp_go.KubernetesClient.Api.{not_found}
use sh_mcp_go.KubernetesClient.Workloads.{Snapshot}
use sh_mcp_go.KubernetesClient.Rollout.{
  Event, tick, waiting, returned, deadline_after, wait_for_rollout,
}
use sh_mcp_go.KubernetesClient.Waits.{FindsReady, wait_for_rollout-returns, wait_for_rollout-ready}

-- The cluster, with so many ready replicas out of three.
abbrev with_ready : ℕ → Snapshot
with_ready n = record {
  deployment = λ namespace name. ok (record {
    name = name;
    namespace = namespace;
    ready_replicas = n;
    replicas = some 3;
    created = 0;
  });
  stateful_set = λ namespace name. err not_found;
  daemon_set = λ namespace name. err not_found;
}

-- Ticks at 5, 10 and 15 seconds after the start at 0.
abbrev ticks : List Event
ticks =
    tick 5000000000 (with_ready 1)
    ∷ tick 10000000000 (with_ready 3)
    ∷ tick 15000000000 (with_ready 3)
    ∷ []

wait_for_rollout-returns_example : wait_for_rollout "Deployment" "web" "prod" 12 0 ticks ≢ waiting
wait_for_rollout-returns_example =
    wait_for_rollout-returns "Deployment" "web" "prod" 12 0 ticks
      (omega arith, (omega arith, (omega arith, tt))) (omega arith) (omega arith)

wait_for_rollout-ready_example :
    (wait_for_rollout "Deployment" "web" "prod" 12 0 ticks ≡ returned none)
    ↔ FindsReady "Deployment" "web" "prod" 12 (deadline_after 0 12) ticks
wait_for_rollout-ready_example = wait_for_rollout-ready "Deployment" "web" "prod" 12 0 ticks
