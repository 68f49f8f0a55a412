-- ===== src/RoutingAlgorithms.antt =====
-- The searches of osrm-backend/routing_algorithms.
pub mod QueryHeap
pub mod RoutingBase
