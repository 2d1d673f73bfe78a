-- ===== src/Tables.antt =====
-- frontend/src/tables: the tables of agents, entries, clusters, federations and servers, what their
-- buttons do with the selected rows, and the pages of a table.
pub mod Agents
pub mod Entries
pub mod Others
pub mod Toolbar
pub mod Pages
pub mod Laws
mod Tests
