-- ===== src/KubernetesClient.antt =====
-- internal/adapters/kubernetes/client.go: the Kubernetes port over client-go.
pub mod Api
pub mod Namespaces
pub mod Definitions
pub mod Workloads
pub mod Rollout
pub mod Waits
pub mod Nodes
pub mod Estimates
