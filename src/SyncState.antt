-- ===== src/SyncState.antt =====
-- The per-extension sync-state row of financial_dashboard/services/paisa/sync_state.py, with the
-- triggers of financial_dashboard/db/init_db.py that dirty it. The operations stand in the first
-- modules; `Guards`, `Effects`, `Rows`, `Invariant`, `Fencing`, `Delivery` and `Timing` are proofs.
pub mod Table
pub mod Backoff
pub mod Eligibility
pub mod Lease
pub mod Completion
pub mod Admin
pub mod Dirty
pub mod Run
pub mod Guards
pub mod Effects
pub mod Invariant
pub mod Rows
pub mod Fencing
pub mod Timing
pub mod Delivery
mod Examples
