-- ===== src/Cluster.antt =====
-- internal/application/cluster: queries of the cluster.
pub mod Inventory
pub mod Analysis
