-- ===== src/Merge.antt =====
-- Merging of transactions: financial_dashboard/services/txn_merge.py.
pub mod Decimal
pub mod Row
pub mod Text
pub mod Window
pub mod Match
pub mod Find
pub mod Enrich
pub mod Store
pub mod Run
pub mod Cents
pub mod Lists
pub mod Evidence
pub mod Table
pub mod Outcomes
pub mod Merged
pub mod Fields
pub mod Alias
pub mod Kept
pub mod Replay
pub mod Again
pub mod Near
pub mod Force
pub mod Candidates
mod Examples
