-- ===== src/Pipeline.antt =====
-- A Run: filedge/source_manifest.py, filedge/file_registration.py and filedge/pipeline.py.
pub mod Manifest
pub mod World
pub mod Register
pub mod Run
pub mod Outcome
pub mod Refines
pub mod Tracked
pub mod Commits
pub mod Ledger
pub mod Booked
pub mod Kept
pub mod Forever
