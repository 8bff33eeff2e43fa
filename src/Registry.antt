-- ===== src/Registry.antt =====
-- The Pipeline Registry: filedge/pipeline_registry.py, filedge/pipeline_resolution.py and
-- filedge/reference.py.
pub mod Reference
pub mod Parse
pub mod Valid
pub mod Added
pub mod Resolve
