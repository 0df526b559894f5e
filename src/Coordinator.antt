-- ===== src/Coordinator.antt =====
-- The automatic reconcile worker: financial_dashboard/services/paisa/coordinator.py, one tick at a
-- time. What the preflight, the generator and the remote answer, and what other sessions commit
-- between the worker's own transactions, is a `World`.
pub mod World
pub mod Results
pub mod Stages
pub mod Tick
pub mod Keeps
pub mod TickKeeps
pub mod Invariant
pub mod Guard
pub mod Fenced
pub mod Calm
pub mod Delivery
pub mod Unchanged
pub mod Gates
mod Examples
