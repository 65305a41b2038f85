-- ===== src/Tests.antt =====
-- A concrete runtime and concrete runs, and the theorems applied to them.
mod Demo
mod Registry
mod Reputation
mod Network
mod Measure
mod Init
mod Hashing
mod Client
mod Scripts
mod Interface
