-- ===== src/Leader.antt =====
-- The leader election of the controller's replicas, src/kubernetes/controller/leader.rs.
pub mod Role
pub mod Lock
pub mod Campaign
pub mod Answers
pub mod Gains
pub mod Takeover
pub mod System
pub mod Invariant
pub mod Safety
