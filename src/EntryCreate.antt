-- ===== src/EntryCreate.antt =====
-- frontend/src/components/entry-create.tsx: the form that creates entries.
pub mod State
pub mod Handlers
pub mod ParentIds
pub mod SelectorsList
pub mod Submit
mod Kept
pub mod LifeCycle
pub mod Machine
pub mod LifeCycleLaws
pub mod Fresh
mod Tests
