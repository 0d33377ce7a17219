-- ===== src/Tests.antt =====
-- Runs on concrete inputs, and the theorems at concrete inputs.
pub mod Election
pub mod Streams
pub mod Routes
pub mod Tables
pub mod Heads
pub mod Fleet
pub mod Edges
pub mod Addresses
pub mod Resolve
