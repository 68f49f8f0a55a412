-- ===== src/DataStructures.antt =====
-- The data structures of osrm-backend/data_structures.
pub mod BinaryHeap
pub mod RestrictionMap
pub mod CompressedEdgeContainer
pub mod DynamicGraph
pub mod RangeTable
pub mod StaticGraph
pub mod LruCache
