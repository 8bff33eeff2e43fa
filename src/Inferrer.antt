-- ===== src/Inferrer.antt =====
-- The types of columns from sampled rows: filedge/inferrer.py.
pub mod Infer
pub mod Fits
pub mod Accepted
