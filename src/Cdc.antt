-- ===== src/Cdc.antt =====
-- Change data capture: filedge/cdc.py.
pub mod Values
pub mod Plan
pub mod Keys
pub mod Latest
pub mod Sound
pub mod Apply
pub mod Reapply
pub mod Twice
