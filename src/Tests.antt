-- ===== src/Tests.antt =====
-- Concrete inputs, and what the code does on them.
pub mod Data
mod Storage
mod Check
mod Schema
mod List
mod Api
mod Service
mod Expand
mod Stats
mod Postgres
mod Fresh
mod Server
