-- ===== src/Algorithms.antt =====
-- The algorithms of osrm-backend/algorithms.
pub mod PolylineCompressor
pub mod BfsComponents
