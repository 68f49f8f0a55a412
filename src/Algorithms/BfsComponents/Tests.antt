-- ===== src/Algorithms/BfsComponents/Tests.antt =====
-- A road between the nodes 0 and 1, and a node by itself.
use maiden.Prelude.{ℕ, suc, ◌<◌, ◌≡◌, refl, Bool, false, List, [], ◌∷◌, ◌==◌, if◌then◌else◌, arith}
use maiden.DataStructures.RestrictionMap.{
  empty_map, check_for_emanating_is_only_turn, check_if_turn_is_restricted, is_source_node,
}
use maiden.Algorithms.BfsComponents.{unexplored, follow, explore_component, run, get_component_size}
use maiden.Algorithms.BfsComponents.Count.{count}
use maiden.Algorithms.BfsComponents.Explore.{IsClosed, Explored, explore_component-Explored}
use maiden.Algorithms.BfsComponents.Run.{run-get_component_size}

abbrev road_targets : ℕ → List ℕ
road_targets v = if v == 0 then 1 ∷ [] else if v == 1 then 0 ∷ [] else []

abbrev no_barrier : ℕ → Bool
no_barrier v = false

road-IsClosed : IsClosed 3 road_targets
road-IsClosed v = ground arith

-- GetComponentSize gives 3 for a component of two nodes.
road_size :
    get_component_size 3 road_targets empty_map no_barrier
      (run 3 road_targets empty_map no_barrier)
      0
    ≡ 3
unfolding run follow empty_map check_for_emanating_is_only_turn check_if_turn_is_restricted
    is_source_node
road_size = refl

run-get_component_size_example :
    let c = run 3 road_targets empty_map no_barrier in
    (c.component_index_list 0 < c.component_index_size.size)
    × (get_component_size 3 road_targets empty_map no_barrier c 0
        ≡ suc (count c.component_index_list (c.component_index_list 0) 3))
run-get_component_size_example =
    run-get_component_size 3 road_targets empty_map no_barrier road-IsClosed (omega arith) 0
      (omega arith)

explore_component-Explored_example :
    Explored 3 road_targets empty_map no_barrier 0
      (omega arith)
      road-IsClosed
      (omega arith)
      (λ x. unexplored)
      (explore_component 3 road_targets empty_map no_barrier 0 0 (λ x. unexplored))
    × ((explore_component 3 road_targets empty_map no_barrier 0 0
            (λ x. unexplored)).component_index_list
          0
        ≡ 0)
unfolding count
explore_component-Explored_example =
    explore_component-Explored 3 road_targets empty_map no_barrier 0 (omega arith) road-IsClosed
      (omega arith) 0 (λ x. unexplored) (omega arith) refl refl
