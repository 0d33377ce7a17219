-- ===== src/DataPlane.antt =====
-- The data plane's agent, src/dataplane/.
pub mod Addresses
