-- ===== src/DataStructures/DynamicGraph.antt =====
-- osrm-backend/data_structures/dynamic_graph.hpp: a graph whose nodes own ranges of one edge list.
-- Slots of the list that no node owns are marked by the largest node id as their target, so that a
-- range can grow into them; a range that cannot grow moves behind the list.
-- Numbers of edges stay below 2^31 and do not wrap.
pub mod Ranges
pub mod Room
pub mod Insert
pub mod Delete
pub mod Clear
pub mod DeleteTo
pub mod Find
pub mod Smallest
pub mod Build
pub mod FillNodes
pub mod FillEdges
pub mod Built
mod Tests
use maiden.Prelude.{
  ℕ, zero, suc, ◌+◌, ◌-◌, ◌*◌, ◌/◌, ◌^◌, Bool, true, false, not, ◌&&◌, ◌||◌, ltb, leb, ◌==◌,
  if◌then◌else◌, Vector, write, resize, push_back,
}

pub record Node : Type 0 where
  pub first_edge : ℕ
  pub edges : ℕ

pub record Edge {ℓ} (D : Type ℓ) : Type ℓ where
  pub target : ℕ
  pub payload : D

pub record DynamicGraph {ℓ} (D : Type ℓ) : Type ℓ where
  pub number_of_nodes : ℕ
  pub number_of_edges : ℕ
  pub node_array : Vector Node
  pub edge_list : Vector (Edge D)

-- `std::numeric_limits<NodeIterator>::max()`, the target of a dummy
abbrev pub dummy_target : ℕ
dummy_target = 2 ^ 32 - 1

-- `node.edges * 1.1 + 2`
abbrev pub new_size : ℕ → ℕ
new_size edges = edges * 11 / 10 + 2

module _ {ℓ} {D : Type ℓ} where
  -- A graph of nodes without edges; the list has as many slots, of any content.
  unfoldable pub empty_graph : ℕ → (ℕ → Edge D) → DynamicGraph D
  empty_graph nodes initial = record {
    number_of_nodes = nodes;
    number_of_edges = 0;
    node_array = record { size = nodes; at = λ n. record { first_edge = 0; edges = 0 } };
    edge_list = record { size = nodes; at = initial };
  }

  abbrev pub is_dummy : Vector (Edge D) → ℕ → Bool
  is_dummy v i = (v.at i).target == dummy_target

  abbrev pub make_dummy : Vector (Edge D) → ℕ → Vector (Edge D)
  make_dummy v i = write v i (record (v.at i) { target = dummy_target })

  unfoldable pub begin_edges : DynamicGraph D → ℕ → ℕ
  begin_edges g n = (g.node_array.at n).first_edge

  unfoldable pub end_edges : DynamicGraph D → ℕ → ℕ
  end_edges g n = (g.node_array.at n).first_edge + (g.node_array.at n).edges

  unfoldable pub get_out_degree : DynamicGraph D → ℕ → ℕ
  get_out_degree g n = (g.node_array.at n).edges

  -- The loop that moves a range, from `source` on, to `to`.
  unfoldable pub move_edges : ℕ → ℕ → ℕ → Vector (Edge D) → Vector (Edge D)
  move_edges zero source to v = v
  move_edges (suc n) source to v =
      move_edges n (source + 1) (to + 1) (make_dummy (write v to (v.at source)) source)

  unfoldable pub make_dummies : ℕ → ℕ → Vector (Edge D) → Vector (Edge D)
  make_dummies zero i v = v
  make_dummies (suc n) i v = make_dummies n (i + 1) (make_dummy v i)

  -- The range moves behind the list, which grows.
  unfoldable pub relocate : Vector (Edge D) → Node → Vector (Edge D) × Node
  unfolding move_edges make_dummies
  relocate v node =
      let moved =
        move_edges node.edges node.first_edge v.size (resize v (v.size + new_size node.edges)) in
      (
        make_dummies (new_size node.edges - (node.edges + 1)) (v.size + (node.edges + 1)) moved,
        record node { first_edge = v.size },
      )

  -- The last edge of the range moves in front of it.
  abbrev pub shift_left : Vector (Edge D) → Node → Vector (Edge D) × Node
  shift_left v node = (
    write v (node.first_edge - 1) (v.at (node.first_edge - 1 + node.edges)),
    record node { first_edge = node.first_edge - 1 },
  )

  -- Room behind the range of a node.
  unfoldable pub make_room : Vector (Edge D) → Node → Vector (Edge D) × Node
  unfolding relocate
  make_room v node =
      let behind = node.edges + node.first_edge in
      if leb v.size behind || not (is_dummy v behind)
      then if not (node.first_edge == 0) && is_dummy v (node.first_edge - 1)
        then shift_left v node
        else relocate v node
      else (v, node)

  -- InsertEdge returns the end of the node's range.
  unfoldable pub insert_edge : DynamicGraph D → ℕ → ℕ → D → ℕ × DynamicGraph D
  unfolding make_room
  insert_edge g from to payload =
      let (v, node) = make_room g.edge_list (g.node_array.at from) in
      let place = node.first_edge + node.edges in
      (
        place + 1,
        record g {
          number_of_edges = g.number_of_edges + 1;
          node_array = write g.node_array from (record node { edges = node.edges + 1 });
          edge_list = write v place (record { target = to; payload = payload });
        },
      )

  unfoldable pub delete_edge : DynamicGraph D → ℕ → ℕ → DynamicGraph D
  delete_edge g source e =
      let node = g.node_array.at source in
      let last = node.first_edge + (node.edges - 1) in
      record g {
        number_of_edges = g.number_of_edges - 1;
        node_array = write g.node_array source (record node { edges = node.edges - 1 });
        edge_list = make_dummy (write g.edge_list e (g.edge_list.at last)) last;
      }

  -- One step of DeleteEdgesTo's inner loop, which has deleted `deleted` edges before.
  abbrev pub remove_at : Vector (Edge D) → ℕ → ℕ → Vector (Edge D)
  remove_at v i last = make_dummy (write v i (v.at last)) last

  unfoldable pub remove_here : ℕ → Vector (Edge D) → ℕ → ℕ → ℕ → ℕ → Vector (Edge D) × ℕ
  remove_here zero v i iend target deleted = (v, deleted)
  remove_here (suc n) v i iend target deleted =
      let w = remove_at v i (iend - (deleted + 1)) in
      let rest = remove_here n w i iend target (deleted + 1) in
      if ltb i (iend - (deleted + 1)) && ((w.at i).target == target) then rest else (w, deleted + 1)

  unfoldable pub remove_from : ℕ → Vector (Edge D) → ℕ → ℕ → ℕ → ℕ → Vector (Edge D) × ℕ
  unfolding remove_here
  remove_from zero v i iend target deleted = (v, deleted)
  remove_from (suc n) v i iend target deleted =
      let here =
        if (v.at i).target == target
        then remove_here (iend - deleted - i) v i iend target deleted
        else (v, deleted) in
      let rest = remove_from n here.0 (i + 1) iend target here.1 in
      if ltb i (iend - deleted) then rest else (v, deleted)

  unfoldable pub delete_edges_to : DynamicGraph D → ℕ → ℕ → ℕ × DynamicGraph D
  unfolding remove_from
  delete_edges_to g source target =
      let node = g.node_array.at source in
      let iend = node.first_edge + node.edges in
      let (v, deleted) = remove_from node.edges g.edge_list node.first_edge iend target 0 in
      (
        deleted,
        record g {
          number_of_edges = g.number_of_edges - deleted;
          node_array = write g.node_array source (record node { edges = node.edges - deleted });
          edge_list = v;
        },
      )

  -- FindEdge and its loop; the largest id is SPECIAL_EDGEID.
  unfoldable pub find_from : ℕ → Vector (Edge D) → ℕ → ℕ → ℕ
  find_from zero v i to = 2 ^ 32 - 1
  find_from (suc n) v i to = if to == (v.at i).target then i else find_from n v (i + 1) to

  unfoldable pub find_edge : DynamicGraph D → ℕ → ℕ → ℕ
  unfolding find_from
  find_edge g from to =
      find_from (g.node_array.at from).edges g.edge_list (g.node_array.at from).first_edge to

  unfoldable pub find_edge_in_either_direction : DynamicGraph D → ℕ → ℕ → ℕ
  unfolding find_edge
  find_edge_in_either_direction g from to =
      let tmp = find_edge g from to in if not (tmp == 2 ^ 32 - 1) then tmp else find_edge g to from

  -- The second part is `result`, which the caller presets.
  unfoldable pub find_edge_indicate_if_reverse : DynamicGraph D → ℕ → ℕ → Bool → ℕ × Bool
  unfolding find_edge
  find_edge_indicate_if_reverse g from to result =
      let there = find_edge g from to in
      let back = find_edge g to from in
      if there == 2 ^ 32 - 1
      then if not (back == 2 ^ 32 - 1) then (back, true) else (back, result)
      else (there, result)

  unfoldable pub set_target : DynamicGraph D → ℕ → ℕ → DynamicGraph D
  set_target g e n = record g {
    edge_list = write g.edge_list e (record (g.edge_list.at e) { target = n });
  }

  -- InsertNode copies the last entry and returns the new number of nodes.
  unfoldable pub insert_node : DynamicGraph D → ℕ × DynamicGraph D
  insert_node g = (
    g.number_of_nodes + 1,
    record g {
      number_of_nodes = g.number_of_nodes + 1;
      node_array = push_back g.node_array (g.node_array.at (g.node_array.size - 1));
    },
  )
