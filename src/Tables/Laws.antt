-- ===== src/Tables/Laws.antt =====
-- What the tables request, what is left in the store, and what the pages show.
pub mod AgentLaws
pub mod EntryLaws
pub mod OtherLaws
pub mod PageLaws
