-- ===== src/HealthCheck.antt =====
-- frontend/src/components/spire-health-check.tsx: the refresh rate and the timers of the health check.
pub mod Rate
pub mod Timers
mod Tests
