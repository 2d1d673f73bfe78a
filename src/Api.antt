-- ===== src/Api.antt =====
-- frontend/src/components/tornjak-api-helpers.tsx: the requests of the user interface, and what
-- their answers do to the store.
pub mod Calls
pub mod Local
pub mod Manager
pub mod Delete
pub mod Laws
pub mod DeleteLaws
mod Tests
