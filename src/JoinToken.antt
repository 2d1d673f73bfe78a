-- ===== src/JoinToken.antt =====
-- frontend/src/components/agent-create-join-token.tsx: the form that makes join tokens.
pub mod Form
pub mod Laws
mod Tests
