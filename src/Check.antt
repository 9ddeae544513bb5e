-- ===== src/Check.antt =====
-- internal/check: the engine, its cache, and the proofs about them.
pub mod Types
pub mod Cache
pub mod Monad
pub mod Engine
pub mod Request
pub mod Body
pub mod Agreement
pub mod Grants
pub mod Failure
pub mod Reference
pub mod ListObjects
pub mod Expand
