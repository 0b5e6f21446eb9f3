-- ===== src/Rules.antt =====
-- backend/src/domain/rules.ts: the pure rules of the hall, one child module for each group.
pub mod Tier
pub mod Calendar
pub mod Spend
pub mod Rank
mod Examples
