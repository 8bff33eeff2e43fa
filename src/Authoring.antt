-- ===== src/Authoring.antt =====
-- The Authoring Workflow: filedge/authoring_draft.py, filedge/authoring_validation.py and
-- filedge/authoring_workflow.py.
pub mod Descriptors
pub mod Draft
pub mod Emit
pub mod Validation
pub mod Workflow
pub mod Generate
pub mod Fresh
pub mod Session
pub mod Written
pub mod Green
pub mod Rewritten
pub mod Roundtrip
