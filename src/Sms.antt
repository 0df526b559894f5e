-- ===== src/Sms.antt =====
-- Messages on the phone: financial_dashboard/services/sms_pipeline.py and
-- financial_dashboard/services/sms_duplicate_resolution.py.
pub mod Row
pub mod Complete
pub mod Accounts
pub mod Cards
mod Uploads
pub mod Chosen
pub mod Process
pub mod Resolve
mod Blanks
pub mod Unique
pub mod Completed
pub mod Outcome
pub mod Rows
pub mod Resolved
pub mod Grounds
mod Examples
mod CardExamples
