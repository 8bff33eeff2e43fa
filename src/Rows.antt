-- ===== src/Rows.antt =====
-- A File's rows on their way to the destination: filedge/transform.py, filedge/column_types.py,
-- filedge/validator.py and filedge/quarantine/.
pub mod Python
pub mod Columns
pub mod Transform
pub mod Tolerance
pub mod Validate
