-- ===== src/Sessions.antt =====
-- backend/src/game-sessions/game-sessions.service.ts: the life of a game session.
pub mod State
pub mod Service
pub mod Starting
pub mod Debit
pub mod Life
mod Examples
