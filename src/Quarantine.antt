-- ===== src/Quarantine.antt =====
-- Dead-Letter Quarantine: filedge/quarantine/ and the policy of filedge/config.py.
pub mod Stream
pub mod Processor
pub mod Blame
pub mod Partition
pub mod Sidecar
pub mod Redrop
