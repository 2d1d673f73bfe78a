-- ===== src/Dashboard.antt =====
-- frontend/src/components/tornjak-helper.tsx: what the dashboard shows of clusters, agents and
-- entries.
pub mod Rows
pub mod Details
pub mod Tables
pub mod Charts
pub mod Laws
pub mod TableLaws
pub mod Link
mod Tests
mod TableTests
