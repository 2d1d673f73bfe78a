-- ===== src/Spiffe.antt =====
-- frontend/src/components/spiffe-helper.tsx, and the parser of SPIFFE IDs of the two forms that
-- create entries (`parseSpiffeId` of entry-create.tsx and entry-create-json.tsx).
pub mod Ids
pub mod Parse
pub mod Selectors
pub mod Association
pub mod Children
pub mod Count
pub mod Status
mod Tests
