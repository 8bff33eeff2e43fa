-- ===== src/FixedWidth.antt =====
-- The fixed-width format: filedge/fixed_width.py.
pub mod Layout
pub mod Disjoint
pub mod Slices
