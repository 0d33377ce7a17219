-- ===== src/Kubernetes.antt =====
-- The control plane's decisions on routes and listeners, under src/kubernetes/.
pub mod Objects
pub mod Grants
pub mod Ports
