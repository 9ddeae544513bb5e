-- ===== src/Check/Agreement.antt =====
-- The engine, with its memo, its cache and its cycle guard, computes what the reference computes.
pub mod Eval
pub mod Request
pub mod Depth
