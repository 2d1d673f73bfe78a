-- ===== src/Servers.antt =====
-- frontend/src/components/server-management.tsx and select-server.tsx: the servers of a manager.
pub mod Register
pub mod Select
pub mod Laws
mod Tests
