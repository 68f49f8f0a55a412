-- ===== src/DataStructures/StaticGraph.antt =====
-- osrm-backend/data_structures/static_graph.hpp: a graph as an array of the first edges of its nodes
-- and an array of edges. The loops run on fuel where the source counts up to a bound.
pub mod Build
pub mod Find
pub mod Smallest
mod Tests
use maiden.Typedefs.{special_nodeid, special_edgeid, invalid_edge_weight}
use maiden.Prelude.{
  ℕ, zero, suc, ◌+◌, ◌-◌, ◌%◌, ◌^◌, Bool, true, false, ◌&&◌, Vector, write, resize, ltb, ◌==◌,
  if◌then◌else◌,
}

pub record InputEdge {ℓ} (D : Type ℓ) : Type ℓ where
  pub source : ℕ
  pub target : ℕ
  pub edge_data : D

pub record EdgeArrayEntry {ℓ} (D : Type ℓ) : Type ℓ where
  pub target : ℕ
  pub edge_data : D

-- A NodeArrayEntry is its only member, `first_edge`.
pub record StaticGraph {ℓ} (D : Type ℓ) : Type ℓ where
  pub number_of_nodes : ℕ
  pub number_of_edges : ℕ
  pub node_array : Vector ℕ
  pub edge_array : Vector (EdgeArrayEntry D)

-- Where the first loop of the constructor stands.
pub record Counted : Type 0 where
  pub edge : ℕ
  pub position : ℕ
  pub node_array : Vector ℕ

module _ {ℓ} {D : Type ℓ} where
  -- `while (edge < number_of_edges && graph[edge].source == node)`
  unfoldable pub skip_edges : ℕ → Vector (InputEdge D) → ℕ → ℕ → ℕ → ℕ
  skip_edges zero graph number_of_edges node edge = edge
  skip_edges (suc fuel) graph number_of_edges node edge =
      let rest = skip_edges fuel graph number_of_edges node (edge + 1) in
      if ltb edge number_of_edges && ((graph.at edge).source == node) then rest else edge

  -- The first loop, over the first nodes.
  unfoldable pub count_edges : Vector (InputEdge D) → ℕ → Vector ℕ → ℕ → Counted
  unfolding skip_edges
  count_edges graph number_of_edges raw zero = record { edge = 0; position = 0; node_array = raw }
  count_edges graph number_of_edges raw (suc node) =
      let c = count_edges graph number_of_edges raw node in
      let edge = skip_edges number_of_edges graph number_of_edges node c.edge in
      record {
        edge = edge;
        position = (c.position + (edge - c.edge)) % 2 ^ 32;
        node_array = write c.node_array node c.position;
      }

  -- The inner second loop, over a number of slots from `i` on.
  unfoldable pub copy_edges :
      ℕ → Vector (InputEdge D) → ℕ → ℕ → Vector (EdgeArrayEntry D) → Vector (EdgeArrayEntry D)
  copy_edges zero graph i edge edge_array = edge_array
  copy_edges (suc count) graph i edge edge_array =
      let e = graph.at edge in
      copy_edges count graph (i + 1) (edge + 1)
        (write edge_array i (record { target = e.target; edge_data = e.edge_data }))

  -- The second loop, over the first nodes, with the edge that it stands at.
  unfoldable pub place_edges :
      Vector (InputEdge D)
      → Vector ℕ
      → Vector (EdgeArrayEntry D)
      → ℕ
      → ℕ × Vector (EdgeArrayEntry D)
  unfolding copy_edges
  place_edges graph node_array raw zero = (0, raw)
  place_edges graph node_array raw (suc node) =
      let (edge, edge_array) = place_edges graph node_array raw node in
      let count = node_array.at (node + 1) - node_array.at node in
      (edge + count, copy_edges count graph (node_array.at node) edge edge_array)

  -- The constructor from sorted edges; what the arrays hold before it writes them is open.
  unfoldable pub new_static_graph :
      Vector ℕ → Vector (EdgeArrayEntry D) → ℕ → Vector (InputEdge D) → StaticGraph D
  unfolding count_edges place_edges
  new_static_graph raw_nodes raw_edges nodes graph =
      let number_of_edges = graph.size % 2 ^ 32 in
      let c = count_edges graph number_of_edges (resize raw_nodes (nodes + 1)) (nodes + 1) in
      record {
        number_of_nodes = nodes;
        number_of_edges = number_of_edges;
        node_array = c.node_array;
        edge_array = (place_edges graph c.node_array (resize raw_edges c.position) nodes).1;
      }

  abbrev pub begin_edges : StaticGraph D → ℕ → ℕ
  begin_edges g n = g.node_array.at n

  abbrev pub end_edges : StaticGraph D → ℕ → ℕ
  end_edges g n = g.node_array.at (n + 1)

  abbrev pub get_out_degree : StaticGraph D → ℕ → ℕ
  get_out_degree g n = end_edges g n - begin_edges g n

  abbrev pub get_target : StaticGraph D → ℕ → ℕ
  get_target g e = (g.edge_array.at e).target

  abbrev pub get_edge_data : StaticGraph D → ℕ → D
  get_edge_data g e = (g.edge_array.at e).edge_data

  -- The loop of FindEdge, over a number of edges from `i` on.
  unfoldable pub find_edge_loop : ℕ → StaticGraph D → ℕ → ℕ → ℕ
  find_edge_loop zero g to i = special_edgeid
  find_edge_loop (suc count) g to i =
      let rest = find_edge_loop count g to (i + 1) in
      if to == (g.edge_array.at i).target then i else rest

  unfoldable pub find_edge : StaticGraph D → ℕ → ℕ → ℕ
  unfolding find_edge_loop
  find_edge g from to = find_edge_loop (get_out_degree g from) g to (begin_edges g from)

  -- The loop of FindSmallestEdge; `distance` reads the member of the edge data.
  unfoldable pub find_smallest_loop : (D → ℕ) → ℕ → StaticGraph D → ℕ → ℕ → ℕ × ℕ → ℕ × ℕ
  find_smallest_loop distance zero g to i best = best
  find_smallest_loop distance (suc count) g to i best =
      let weight = distance (get_edge_data g i) in
      find_smallest_loop distance count g to (i + 1)
        (if (get_target g i == to) && ltb weight best.1 then (i, weight) else best)

  unfoldable pub find_smallest_edge : (D → ℕ) → StaticGraph D → ℕ → ℕ → ℕ
  unfolding find_smallest_loop
  find_smallest_edge distance g from to =
      (find_smallest_loop distance (get_out_degree g from) g to (begin_edges g from)
        (special_edgeid, invalid_edge_weight)).0

  unfoldable pub find_edge_in_either_direction : StaticGraph D → ℕ → ℕ → ℕ
  unfolding find_edge
  find_edge_in_either_direction g from to =
      let tmp = find_edge g from to in if special_nodeid == tmp then find_edge g to from else tmp

  -- The edge, and `result`.
  unfoldable pub find_edge_indicate_if_reverse : StaticGraph D → ℕ → ℕ → Bool → ℕ × Bool
  unfolding find_edge
  find_edge_indicate_if_reverse g from to result =
      let current = find_edge g from to in
      let reversed = find_edge g to from in
      if special_nodeid == current
      then (reversed, (if special_nodeid == reversed then result else true))
      else (current, result)
