-- ===== src/Routing.antt =====
-- src/routing: the route table and the choice of a backend.
pub mod Types
pub mod Hosts
pub mod Match
pub mod Sort
pub mod Order
pub mod Select
pub mod Table
pub mod Build
pub mod Scopes
pub mod Tls
