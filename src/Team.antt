-- ===== src/Team.antt =====
-- backend/src/team/team-rules.ts and backend/src/users/visit-status.ts: the pure rules of shifts and visits.
pub mod Shifts
pub mod Visits
mod Examples
