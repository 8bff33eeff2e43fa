-- ===== src/Destination.antt =====
-- Loading rows into a SQL destination: filedge/connectors/sql_base.py and filedge/cdc.py.
pub mod Table
pub mod Write
pub mod Added
pub mod Rollback
pub mod Atomic
pub mod Idempotent
