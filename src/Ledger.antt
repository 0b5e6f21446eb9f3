-- ===== src/Ledger.antt =====
-- backend/src/ledger/minute-ledger.service.ts: the ledger of the players' minutes.
pub mod State
pub mod Ops
pub mod Service
pub mod Invariant
pub mod Spending
pub mod Crediting
pub mod Topup
pub mod Expiry
pub mod Prepare
pub mod Reports
pub mod Sweep
pub mod Sample
mod Examples
