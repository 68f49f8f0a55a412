-- ===== src/Lib.antt =====
-- OSRM, the routing engine under osrm-backend/: the parts of it that keep state of their own.
--
-- The server reads requests byte by byte (osrm-backend/server/request_parser.cpp). The extractor and
-- the contractor keep turn restrictions (data_structures/restriction_map.cpp) and the geometries of
-- joined edges (data_structures/compressed_edge_container.cpp), which the server loads again
-- (server/data_structures/internal_datafacade.hpp). Every search queues its nodes in an addressable
-- heap (data_structures/binary_heap.hpp). The extractor joins edges of, and the contractor works on, a
-- graph that changes (data_structures/dynamic_graph.hpp); the server searches in one that does not
-- (data_structures/static_graph.hpp), by routing_algorithms/routing_base.hpp, which asks the heap and
-- the data facade only. The extractor finds small components by algorithms/bfs_components.hpp, with the
-- turn restrictions. Names are found through data_structures/range_table.hpp;
-- data_structures/lru_cache.hpp is a cache on its own. Requests and replies are unescaped and escaped
-- by util/string_util.hpp, and lines in replies are packed by algorithms/polyline_compressor.cpp.
--
-- Files and sources, the paths below osrm-backend/:
--   Prelude                      shared types: words and numbers, lists, integers, vectors
--   Typedefs                     typedefs.h: the constants for what does not exist
--   Server/RequestParser         server/request_parser.cpp, server/http: `consume` is a function of
--                                the parser, the request and a byte, `parse` its loop over a buffer
--   DataStructures/BinaryHeap    data_structures/binary_heap.hpp: the arrays `inserted_nodes` and
--                                `heap`, and an index storage with its laws as a parameter
--   DataStructures/RestrictionMap
--                                data_structures/restriction_map.cpp and .hpp: its sets and maps are
--                                functions, its buckets lists
--   DataStructures/CompressedEdgeContainer
--                                data_structures/compressed_edge_container.cpp; Serialize also the
--                                geometry part of server/data_structures/internal_datafacade.hpp
--   DataStructures/DynamicGraph  data_structures/dynamic_graph.hpp: Room and Insert for InsertEdge,
--                                Delete, Clear and DeleteTo for the deletions, Build, FillNodes,
--                                FillEdges and Built for the constructor from a sorted list, Find and
--                                Smallest for the searches
--   DataStructures/StaticGraph   data_structures/static_graph.hpp: Build for the constructor, Find and
--                                Smallest for the searches
--   DataStructures/RangeTable    data_structures/range_table.hpp: Build for the loop of the constructor,
--                                Fill and Table for the last block, Ranges for GetRange
--   DataStructures/LruCache      data_structures/lru_cache.hpp: an iterator is the number of a list node
--   RoutingAlgorithms/QueryHeap  data_structures/search_engine_data.hpp: the heap as the searches see it,
--                                by the label of each node; SearchHeap and Binary fill it with the heap
--                                above
--   RoutingAlgorithms/RoutingBase
--                                routing_algorithms/routing_base.hpp: Labels, Step and Meetings for
--                                RoutingStep on the labels, Advance on the heap; Loop and Search for the
--                                loop of Search, Path and Sound for the path that it returns;
--                                UnpackEdge with Smallest for the edge it takes, Road for what it writes
--   Algorithms/BfsComponents     algorithms/bfs_components.hpp: Explore for ExploreComponent, Run for run
--   Algorithms/PolylineCompressor
--                                algorithms/polyline_compressor.cpp: encode_loop is the loop of
--                                encode_number, read_number a loop of decode_string
--   Util/StringUtil              util/string_util.hpp: Json for escape_JSON, Uri for URIDecode
--
-- Names are those of the source in lower case: CompressEdge is `compress_edge`. A method takes the
-- state and returns the new one. A vector is its size and a function of the index, so that a read
-- outside its bounds has some value, as undefined as in the source; the theorems are about states
-- where no such read occurs, or hold for any value.
--
-- Bounds: numbers that the source holds in 32 or 64 bits do not wrap here where the code only counts
-- what fits into memory; the 64-bit ids of turn restrictions are cut to 32 bits as in the source, and
-- the length of a posted body and the numbers of the polyline compressor are ints that wrap at 32 bits.
-- GetRange and UnpackEdge give no result where one of their assertions fails. The sifting loops of the heap run on fuel: the key that
-- starts an upward loop, as it halves, and the size of the heap for a downward one, as the key grows.
-- The loops of the dynamic graph run on the number of slots that are left to them, those of the
-- polyline compressor on the number to encode and on the length of the text to decode. The scaling
-- in doubles of decode_string is a parameter. A weight of a search that may be negative is stored as
-- its distance from -2^31, and sums of weights do not wrap. The rounds of Search are fuel, of which two
-- for each node are enough, as each round takes a node from a heap; for a path any
-- fuel above the key of its end is enough, as keys fall along it; UnpackEdge needs the depth of the edge
-- that it unpacks, which is a parameter. ExploreComponent queues each node once. The loops of the static graph run on the number of
-- edges, and that which fills a block of the range table on the size of a block.
--
-- Not modelled: sockets, threads, files and logging; what boost compares without regard to case is a
-- parameter; floating point (coordinates, contraction priorities); code of other projects under
-- osrm-backend/third_party; the extractor and the contractor themselves. Of routing_base.hpp,
-- SearchWithCore and UnpackPath are not modelled, nor get_network_distance, which ends in floating point.
pub mod Prelude
pub mod Typedefs
pub mod Server
pub mod DataStructures
pub mod Util
pub mod Algorithms
pub mod RoutingAlgorithms
