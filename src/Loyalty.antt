-- ===== src/Loyalty.antt =====
-- backend/src/loyalty/loyalty.service.ts: statuses, visits and rewards, over the minute ledger.
pub mod State
pub mod Service
pub mod Keeping
pub mod Laws
pub mod Statuses
mod Examples
