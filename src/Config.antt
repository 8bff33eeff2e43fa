-- ===== src/Config.antt =====
-- The Pipeline Config: filedge/config.py.
pub mod Raw
pub mod Blocks
pub mod Columns
pub mod FromDict
pub mod Accepted
