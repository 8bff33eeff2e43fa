-- ===== src/Compactor.antt =====
-- filedge/compactor.py.
pub mod Compact
pub mod Rows
pub mod Done
