-- ===== src/Storage.antt =====
-- internal/storage: relationship tuples and the stores that hold them.
pub mod Types
pub mod Parse
pub mod Memory
pub mod Store
pub mod Places
pub mod Postgres
