-- ===== src/DataStructures/DynamicGraph/Build.antt =====
-- osrm-backend/data_structures/dynamic_graph.hpp: the constructor from a sorted list of edges.
use maiden.Prelude.{ℕ, zero, suc, ◌+◌, ◌-◌, ◌≤◌, ◌<◌, ◌&&◌, ltb, ◌==◌, if◌then◌else◌, Vector, write}
use maiden.DataStructures.DynamicGraph.{Node, Edge, DynamicGraph}

pub record InputEdge {ℓ} (D : Type ℓ) : Type ℓ where
  pub source : ℕ
  pub target : ℕ
  pub payload : D

module _ {ℓ} {D : Type ℓ} where
  -- The loop that runs over the edges of a node; `fuel` edges are left.
  unfoldable pub run_end : ℕ → Vector (InputEdge D) → ℕ → ℕ → ℕ
  run_end zero graph node edge = edge
  run_end (suc fuel) graph node edge =
      let rest = run_end fuel graph node (edge + 1) in
      if ltb edge graph.size && ((graph.at edge).source == node) then rest else edge

  -- The loop over the nodes, of which `n` are left: the array and the position.
  unfoldable pub fill_nodes : ℕ → Vector (InputEdge D) → ℕ → ℕ → ℕ → Vector Node → Vector Node × ℕ
  unfolding run_end
  fill_nodes zero graph node edge position nodes = (nodes, position)
  fill_nodes (suc n) graph node edge position nodes =
      let next = run_end (graph.size - edge) graph node edge in
      fill_nodes n graph (node + 1) next (position + (next - edge))
        (write nodes node (record { first_edge = position; edges = next - edge }))

  -- The loop over the edges of a node, of which `n` are left, and the one over the nodes.
  unfoldable pub fill_range :
      ℕ → Vector (InputEdge D) → ℕ → ℕ → Vector (Edge D) → Vector (Edge D) × ℕ
  fill_range zero graph i edge v = (v, edge)
  fill_range (suc n) graph i edge v =
      let e = graph.at edge in
      fill_range n graph (i + 1) (edge + 1)
        (write v i (record { target = e.target; payload = e.payload }))

  unfoldable pub fill_edges :
      ℕ → Vector (InputEdge D) → Vector Node → ℕ → ℕ → Vector (Edge D) → Vector (Edge D)
  unfolding fill_range
  fill_edges zero graph nodes node edge v = v
  fill_edges (suc n) graph nodes node edge v =
      let (w, next) = fill_range (nodes.at node).edges graph (nodes.at node).first_edge edge v in
      fill_edges n graph nodes (node + 1) next w

  -- The constructor; `slots` is what the edge list holds before it is written.
  unfoldable pub build : ℕ → Vector (InputEdge D) → (ℕ → Edge D) → DynamicGraph D
  unfolding fill_nodes fill_edges
  build n graph slots =
      let nodes : Vector Node = record {
        size = n + 1;
        at = λ i. record { first_edge = 0; edges = 0 };
      } in
      let (filled, position) = fill_nodes n graph 0 0 0 nodes in
      let array =
        write filled (filled.size - 1)
          (record (filled.at (filled.size - 1)) { first_edge = position }) in
      record {
        number_of_nodes = n;
        number_of_edges = graph.size;
        node_array = array;
        edge_list = fill_edges n graph array 0 0 (record { size = position; at = slots });
      }

  abbrev pub edge_of : InputEdge D → Edge D
  edge_of e = record { target = e.target; payload = e.payload }

  abbrev pub IsSorted : Vector (InputEdge D) → Type 0
  IsSorted graph = (i j : ℕ) → i ≤ j → j < graph.size → (graph.at i).source ≤ (graph.at j).source
