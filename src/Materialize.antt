-- ===== src/Materialize.antt =====
-- The Queue Materializer: filedge/materialize/.
pub mod Consumer
pub mod Buffers
pub mod Delivered
pub mod Drained
pub mod Run
pub mod Commits
