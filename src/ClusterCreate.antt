-- ===== src/ClusterCreate.antt =====
-- frontend/src/components/cluster-create.tsx: the form that registers clusters.
pub mod Form
pub mod Machine
pub mod LifeCycle
mod Tests
