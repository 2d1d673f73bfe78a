-- ===== src/ClusterEdit.antt =====
-- frontend/src/components/cluster-edit.tsx: the form that edits a cluster.
pub mod Form
pub mod Machine
pub mod LifeCycle
mod Tests
