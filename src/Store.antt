-- ===== src/Store.antt =====
-- frontend/src/redux and frontend/src/data: the store of the user interface.
pub mod Data
pub mod Actions
pub mod Reducers
pub mod Registers
mod Tests
