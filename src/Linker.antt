-- ===== src/Linker.antt =====
-- Linking transactions to accounts and cards: financial_dashboard/services/linker.py. A row of the
-- database is a record of the columns that the linker reads, and texts are lists of code points. A
-- dict of lists is a function from its keys whose missing keys have the empty list, as
-- `setdefault(key, [])` and `get(key, [])` read it.
pub mod Context
pub mod Link
pub mod Sources
pub mod Lookup
pub mod Evidence
pub mod Relink
mod Examples
