-- ===== src/Ops.antt =====
-- backend/src/ops: the rules of compensations and of the outcome of a session, and the service.
pub mod Compensation
pub mod Outcome
pub mod State
pub mod Bookings
pub mod Participants
pub mod Packages
pub mod Certificates
pub mod Blocks
pub mod Compensating
mod Examples
mod Witnesses
