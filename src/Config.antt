-- ===== src/Config.antt =====
-- internal/config: the configuration file, its encrypted keys, and the connection to the cluster.
pub mod Types
pub mod Load
pub mod Cluster
pub mod Keys
pub mod Loading
