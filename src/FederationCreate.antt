-- ===== src/FederationCreate.antt =====
-- frontend/src/components/federation-create.tsx: federations from a file, their editor and the request.
pub mod Json
pub mod State
pub mod Read
pub mod Edit
pub mod Laws
pub mod EditLaws
pub mod Bundle
mod Tests
