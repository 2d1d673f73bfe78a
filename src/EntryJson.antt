-- ===== src/EntryJson.antt =====
-- frontend/src/components/entry-create-json.tsx: the form that reads entries from a file, and edits
-- them before they are sent by the form of frontend/src/components/entry-create.tsx.
pub mod State
pub mod World
pub mod Load
pub mod Edit
