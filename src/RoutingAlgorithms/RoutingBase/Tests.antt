-- ===== src/RoutingAlgorithms/RoutingBase/Tests.antt =====
-- A run of Search on a road with three nodes: the one search starts at 0, the other at 2.
use maiden.Prelude.{
  ℕ, not, List, ◌++◌, ◌&&◌, inl, inr, ◌+◌, ◌*◌, ◌^◌, ◌≤◌, ◌<◌, ◌≡◌, refl, true, false, Option, none,
  some, [], ◌∷◌, ◌==◌, if◌then◌else◌, arith,
}
use maiden.DataStructures.BinaryHeap.{
  BinaryHeap, clear, insert, upheap, downheap, drop_root, delete_min, delete_all, decrease_key,
  set_data, min_key, size, get_key, get_data, was_inserted, forget,
}
use maiden.DataStructures.BinaryHeap.Storage.{map_storage, map_peek, map_assign, map_index}
use maiden.RoutingAlgorithms.QueryHeap.Binary.{query_heap, clear-label}
use maiden.RoutingAlgorithms.RoutingBase.{
  Facade, Searches, search, search_loop, relax_edge, int_offset,
}
use maiden.RoutingAlgorithms.RoutingBase.Labels.{IsPositive}
use maiden.RoutingAlgorithms.RoutingBase.Search.{Begins, last}
use maiden.RoutingAlgorithms.RoutingBase.Path.{IsClimb-least}
use maiden.RoutingAlgorithms.RoutingBase.UnpackEdge.{unpack_edge, edge_between, smaller_edge}
use maiden.RoutingAlgorithms.RoutingBase.UnpackEdge.Road.{
  IsLinked, IsHierarchy, IsRoad, unpack_edge-IsRoad,
}
use maiden.RoutingAlgorithms.RoutingBase.UnpackEdge.Smallest.{Matches, edge_between-least}
use maiden.RoutingAlgorithms.RoutingBase.Sound.{
  IsNonNegative, IsPacked, search_loop-ends, search_loop-least, search-IsPacked,
}

abbrev road : Facade
road = record {
  adjacent = λ n. if n == 0 then 0 ∷ [] else if n == 2 then 1 ∷ [] else [];
  target = λ e. 1;
  distance = λ e. 3 + e;
  forward = λ e. e == 0;
  backward = λ e. e == 1;
  shortcut = λ e. false;
  id = λ e. 0;
}

abbrev only : ℕ → ℕ → Option ℕ
only n m = if n == m then some int_offset else none

raw : BinaryHeap map_storage ℕ
raw = record {
  arrays = record {
    inserted_nodes = record {
      size = 1;
      at = λ i. record { node = 3; key = 1; weight = 8; payload = 0 };
    };
    heap = record { size = 5; at = λ i. record { index = 2; weight = 7 } };
  };
  node_index = [];
}

abbrev begun : ℕ → BinaryHeap map_storage ℕ
begun n = insert map_storage (clear map_storage raw) n int_offset n

begun-Begins : (n : ℕ) → n < 3 → Begins query_heap (only n) 3 (begun n)
begun-Begins n small =
    let (v, fresh) = clear-label raw in
    let r = query_heap.insert-label (clear map_storage raw) n int_offset n v (fresh n) in
    record {
      heap = r.0;
      holds = λ m. ground (arith, r.1 m, fresh m);
      bounded = λ m w e. ground arith;
    }

road-IsPositive : IsPositive road
road-IsPositive e = omega arith

only-least : (n m k : ℕ) → only n m ≡ some k → int_offset ≤ k
only-least n m k e = ground arith

road-IsNonNegative : IsNonNegative road (only 0) (only 2)
unfolding IsNonNegative
road-IsNonNegative n a b pre post c c' = omega (
  arith,
  IsClimb-least road true (only 0) int_offset (only-least 0) n a pre c,
  IsClimb-least road false (only 2) int_offset (only-least 2) n b post c',
)

found : search query_heap road 6 (2 ^ 33) (begun 0) (begun 2) ≡ some (7, 0 ∷ 1 ∷ 2 ∷ [])
unfolding raw clear insert upheap map_peek map_assign search downheap drop_root delete_min
    delete_all decrease_key set_data min_key size get_key get_data was_inserted forget map_index
    relax_edge
found = refl

search-IsPacked_example : IsPacked road (only 0) (only 2) 7 (0 ∷ 1 ∷ 2 ∷ [])
search-IsPacked_example =
    search-IsPacked query_heap road 3 (only 0) (only 2) (begun 0) (begun 2)
      (begun-Begins 0 (omega arith)) (begun-Begins 2 (omega arith)) road-IsPositive
      (λ e. omega arith) 6 (omega arith) (only-least 2) road-IsNonNegative (2 ^ 33) (omega arith) 7
      (0 ∷ 1 ∷ 2 ∷ []) found

abbrev ended : Searches query_heap road
ended =
    last query_heap road 3 (only 0) (only 2) (begun 0) (begun 2) (begun-Begins 0 (omega arith))
      (begun-Begins 2 (omega arith)) road-IsPositive (λ e. omega arith) 6 (omega arith)

search_loop-ends_example :
    (query_heap.size ended.forward_heap ≡ 0) × (query_heap.size ended.reverse_heap ≡ 0)
search_loop-ends_example =
    search_loop-ends query_heap road 3 (only 0) (only 2) (begun 0) (begun 2)
      (begun-Begins 0 (omega arith)) (begun-Begins 2 (omega arith)) road-IsPositive
      (λ e. omega arith) 6 (omega arith)

meets :
    (query_heap.label ended.forward_heap 1
      ≡ some (record { weight = int_offset + 3; parent = 0; queued = false }))
    × (query_heap.label ended.reverse_heap 1
        ≡ some (record { weight = int_offset + 4; parent = 2; queued = false }))
unfolding raw clear insert upheap map_peek map_assign search_loop downheap drop_root delete_min
    delete_all decrease_key set_data min_key size get_key get_data was_inserted forget map_index
    relax_edge
meets = (refl, refl)

search_loop-least_example :
    ended.meeting.upper_bound + 2 * int_offset ≤ (int_offset + 3) + (int_offset + 4)
search_loop-least_example =
    search_loop-least query_heap road 3 (only 0) (only 2) (begun 0) (begun 2)
      (begun-Begins 0 (omega arith)) (begun-Begins 2 (omega arith)) road-IsPositive
      (λ e. omega arith) 6 (omega arith) (only-least 2) road-IsNonNegative 1
      (record { weight = int_offset + 3; parent = 0; queued = false })
      (record { weight = int_offset + 4; parent = 2; queued = false }) (meets).0 (meets).1

-- The road with a shortcut: edge 2 from 0 to 2 through 1.
abbrev with_shortcut : Facade
with_shortcut = record {
  adjacent = λ n. if n == 0 then 0 ∷ 2 ∷ [] else if n == 2 then 1 ∷ [] else [];
  target = λ e. if e == 2 then 2 else 1;
  distance = λ e. if e == 2 then 7 else 3 + e;
  forward = λ e. not (e == 1);
  backward = λ e. e == 1;
  shortcut = λ e. e == 2;
  id = λ e. 1;
}

unpacked : unpack_edge with_shortcut 9 0 2 ≡ some (0 ∷ 1 ∷ 2 ∷ [])
unfolding unpack_edge edge_between
unpacked = refl

edge_between-least_example :
    Matches with_shortcut true 2 (with_shortcut.adjacent 0) (edge_between with_shortcut 0 2)
    × ((x : ℕ)
        → Matches with_shortcut true 2 (with_shortcut.adjacent 0) x
        → with_shortcut.distance (edge_between with_shortcut 0 2) ≤ with_shortcut.distance x)
edge_between-least_example =
    edge_between-least with_shortcut 0 2 2 (inr (inl refl), refl, refl) (omega arith)
      (λ x h. ground arith)

only_shortcut : (a b : ℕ) → (edge_between with_shortcut a b == 2) ≡ true → (a ≡ 0) × (b ≡ 2)
unfolding edge_between smaller_edge
only_shortcut a b h = ground arith

abbrev two_deep : ℕ → ℕ → ℕ
two_deep a b = if (a == 0) && (b == 2) then 3 else 1

with_shortcut-IsHierarchy : IsHierarchy with_shortcut two_deep
unfolding edge_between smaller_edge
with_shortcut-IsHierarchy = record {
  some_depth = λ a b. ground arith;
  linked = λ a b l h. ground (arith, only_shortcut a b h);
  halves = λ a b l h. ground (arith, only_shortcut a b h);
  weight = λ a b l h. ground (arith, only_shortcut a b h);
}

IsLinked-ends : IsLinked with_shortcut 0 2
unfolding edge_between
IsLinked-ends = refl

unpack_edge-IsRoad_example :
    (nodes : List ℕ) × (unpack_edge with_shortcut 3 0 2 ≡ some (nodes ++ (2 ∷ [])))
    × IsRoad with_shortcut 0 nodes 2 (with_shortcut.distance (edge_between with_shortcut 0 2))
unpack_edge-IsRoad_example =
    unpack_edge-IsRoad with_shortcut two_deep with_shortcut-IsHierarchy 3 0 2 IsLinked-ends
      (omega arith)

-- Without an edge the assertion fails.
apart : unpack_edge with_shortcut 9 2 7 ≡ none
unfolding unpack_edge edge_between
apart = refl
