-- ===== src/Samples.antt =====
-- The theorems at concrete inputs.
mod Deployments
mod Plans
mod Planning
mod Service
mod Storing
mod Queries
mod HelmSdk
mod Helm
mod Kubernetes
mod Tools
