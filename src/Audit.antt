-- ===== src/Audit.antt =====
-- The Audit DB: filedge/db.py and filedge/audit_records.py.
pub mod Record
pub mod Sql
pub mod Store
pub mod Consistency
pub mod Lock
pub mod States
pub mod Lifecycle
pub mod Requeue
pub mod Eligibility
