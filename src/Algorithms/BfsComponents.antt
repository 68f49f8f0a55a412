-- ===== src/Algorithms/BfsComponents.antt =====
-- osrm-backend/algorithms/bfs_components.hpp: the components of a graph, explored breadth first with
-- respect to turn restrictions and barriers. The graph is seen as its number of nodes and the targets
-- of the edges of each.
pub mod Count
pub mod Explore
pub mod Run
mod Tests
use maiden.Prelude.{
  ℕ, zero, suc, ◌+◌, ◌-◌, ◌%◌, ◌^◌, Bool, true, false, not, ◌&&◌, List, [], ◌∷◌, ◌++◌, Vector,
  write, push_back, ltb, ◌==◌, if◌then◌else◌,
}
use maiden.DataStructures.RestrictionMap.{
  RestrictionMap, check_for_emanating_is_only_turn, check_if_turn_is_restricted,
}

-- `std::numeric_limits<unsigned>::max()`
abbrev pub unexplored : ℕ
unexplored = 2 ^ 32 - 1

-- What ExploreComponent changes.
pub record Exploration : Type 0 where
  pub component_index_list : ℕ → ℕ
  pub bfs_queue : List (ℕ × ℕ)
  pub current_component_size : ℕ

-- `m_component_index_list[w] = component`
abbrev pub set_index : (ℕ → ℕ) → ℕ → ℕ → ℕ → ℕ
set_index index w component x = if w == x then component else index x

-- The members that run fills.
pub record Components : Type 0 where
  pub component_index_list : ℕ → ℕ
  pub component_index_size : Vector ℕ
  pub current_component : ℕ

module _ (nodes : ℕ) (targets : ℕ → List ℕ) (restrictions : RestrictionMap)
    (barrier_nodes : ℕ → Bool) where
  -- The body of the loop over the edges of `v`, which was reached from `u`.
  unfoldable pub follow : ℕ → ℕ → ℕ → ℕ → Exploration → ℕ → Exploration
  follow current_component to_node_of_only_restriction u v s w =
      if not (to_node_of_only_restriction == unexplored) && not (w == to_node_of_only_restriction)
      then s
      else if not (u == w)
          && not (check_if_turn_is_restricted restrictions u v w)
          && (unexplored == s.component_index_list w)
      then record s {
        component_index_list = set_index s.component_index_list w current_component;
        bfs_queue = s.bfs_queue ++ ((w, v) ∷ []);
      }
      else s

  unfoldable pub follow_all : ℕ → ℕ → ℕ → ℕ → Exploration → List ℕ → Exploration
  unfolding follow
  follow_all current_component only u v s [] = s
  follow_all current_component only u v s (w ∷ ws) =
      follow_all current_component only u v (follow current_component only u v s w) ws

  -- The body of the loop over the queue, with the front taken off.
  unfoldable pub explore_node : ℕ → ℕ → ℕ → Exploration → Exploration
  unfolding follow_all
  explore_node current_component v u s =
      let counted = record s { current_component_size = (s.current_component_size + 1) % 2 ^ 32 } in
      if barrier_nodes v
      then counted
      else follow_all current_component (check_for_emanating_is_only_turn restrictions u v) u v
          counted (targets v)

  unfoldable pub explore_loop : ℕ → ℕ → List (ℕ × ℕ) → (ℕ → ℕ) → ℕ → Exploration
  unfolding explore_node
  explore_loop zero current_component queue index size = record {
    component_index_list = index;
    bfs_queue = queue;
    current_component_size = size;
  }
  explore_loop (suc fuel) current_component [] index size = record {
    component_index_list = index;
    bfs_queue = [];
    current_component_size = size;
  }
  explore_loop (suc fuel) current_component ((v, u) ∷ queue) index size =
      let s = explore_node current_component v u (record {
        component_index_list = index;
        bfs_queue = queue;
        current_component_size = size;
      }) in
      explore_loop fuel current_component s.bfs_queue s.component_index_list
        s.current_component_size

  -- ExploreComponent, with fuel for every node.
  unfoldable pub explore_component : ℕ → ℕ → (ℕ → ℕ) → Exploration
  unfolding explore_loop
  explore_component current_component node index =
      explore_loop (suc nodes) current_component ((node, node) ∷ [])
        (set_index index node current_component) 1

  -- The loop of run, over the first nodes.
  unfoldable pub run_loop : ℕ → Components
  unfolding explore_component
  run_loop zero = record {
    component_index_list = λ node. unexplored;
    component_index_size = record { size = 0; at = λ i. 0 };
    current_component = 0;
  }
  run_loop (suc node) =
      let c = run_loop node in
      let s = explore_component c.current_component node c.component_index_list in
      if unexplored == c.component_index_list node
      then record {
        component_index_list = s.component_index_list;
        component_index_size = push_back c.component_index_size s.current_component_size;
        current_component = (c.current_component + 1) % 2 ^ 32;
      }
      else c

  unfoldable pub run : Components
  unfolding run_loop
  run = run_loop nodes

  abbrev pub get_component_size : Components → ℕ → ℕ
  get_component_size c node = c.component_index_size.at (c.component_index_list node)
