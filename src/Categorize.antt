-- ===== src/Categorize.antt =====
-- The categories of transactions: financial_dashboard/services/categorization. Slugs are texts that
-- are compared only; narrations are lists of code points, which the code takes as ASCII here. A
-- confidence is a number of millionths.
pub mod Polarity
pub mod Text
pub mod Rules
pub mod Direction
pub mod Transfer
pub mod Legs
pub mod Marks
pub mod Engine
pub mod Work
mod Examples
