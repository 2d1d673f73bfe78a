-- ===== src/EntryExpiry.antt =====
-- frontend/src/components/entry-expiry-features.tsx: the choice of an entry's expiry time.
pub mod Form
pub mod HandOver
pub mod Safety
pub mod Sent
mod SentTests
mod Tests
