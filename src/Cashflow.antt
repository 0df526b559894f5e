-- ===== src/Cashflow.antt =====
-- The cashflow report: financial_dashboard/services/cashflow.
pub mod Buckets
pub mod Rows
pub mod Report
pub mod Sums
pub mod Net
pub mod Scopes
pub mod Footnotes
pub mod Accounted
mod Examples
