-- ===== src/Cash.antt =====
-- backend/src/cash: the cash register.
pub mod SaleRules
pub mod State
pub mod Tables
pub mod Drawer
pub mod Shifts
pub mod Moves
pub mod Lines
pub mod Sell
pub mod Goods
pub mod Selling
pub mod Returns
pub mod Minutes
pub mod Invariant
pub mod Reach
pub mod Summary
pub mod Handover
pub mod Sample
mod Examples
mod Witnesses
