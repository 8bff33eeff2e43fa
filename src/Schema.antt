-- ===== src/Schema.antt =====
-- The columns that a destination table should have: filedge/schema.py.
pub mod Columns
pub mod Agreement
