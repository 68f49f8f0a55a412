-- ===== src/DataStructures/DynamicGraph/Insert.antt =====
-- osrm-backend/data_structures/dynamic_graph.hpp: InsertEdge.
use maiden.Prelude.{
  ℕ, ◌+◌, ◌≤◌, ◌<◌, ◌≡◌, refl, sym, ap, ◌∙◌, ◌≢◌, Bool, ◌==◌, Vector, write, arith, inl, inr,
  Bool-cases,
}
use maiden.DataStructures.DynamicGraph.{
  Node, Edge, DynamicGraph, dummy_target, make_room, insert_edge,
}
use maiden.DataStructures.DynamicGraph.Ranges.{
  one, edges_with, Owns, IsValid, SameEdges, occurrences-ext, occurrences-snoc,
}
use maiden.DataStructures.DynamicGraph.Room.{IsTaken, Room, make_room-Room}

module _ {ℓ} {D : Type ℓ} where
  -- What InsertEdge leaves.
  pub record Inserted (g : DynamicGraph D) (from to : ℕ) (payload : D) (h : DynamicGraph D)
      : Type ℓ where
    pub valid : IsValid h
    pub added :
        (p : Edge D → Bool)
        → edges_with p h from
          ≡ edges_with p g from + one (p (record { target = to; payload = payload }))
    pub others : (m : ℕ) → m < g.node_array.size → m ≢ from → SameEdges g h m
    pub total : h.number_of_edges ≡ g.number_of_edges + 1

  module _ (g : DynamicGraph D) (from to : ℕ) (payload : D) (h : IsValid g)
      (inside : from < g.node_array.size) (ne : to ≢ dummy_target) (w : Vector (Edge D))
      (node : Node) (r : Room g.edge_list (g.node_array.at from) w node) where
    abbrev filled : DynamicGraph D
    filled = record g {
      number_of_edges = g.number_of_edges + 1;
      node_array = write g.node_array from (record node { edges = node.edges + 1 });
      edge_list =
          write w (node.first_edge + node.edges) (record { target = to; payload = payload });
    }

    taken :
        (m i : ℕ)
        → m < g.node_array.size
        → m ≢ from
        → Owns (g.node_array.at m) i
        → IsTaken g.edge_list (g.node_array.at from) i
    taken m i q d o =
        (omega (arith, h.fits m q, o.1), h.live m i q o, λ o'. h.apart m from i q inside d o o')

    outside :
        (m i : ℕ)
        → m < g.node_array.size
        → m ≢ from
        → Owns (g.node_array.at m) i
        → node.first_edge ≤ i
        → i ≤ node.first_edge + node.edges
        → ⊥
    outside m i q d o a b = r.free i a b (taken m i q d o)

    kept :
        (m i : ℕ)
        → m < g.node_array.size
        → m ≢ from
        → Owns (g.node_array.at m) i
        → filled.edge_list.at i ≡ g.edge_list.at i
    kept m i q d o = elim (Bool-cases (node.first_edge + node.edges == i)) [
      | inl here ↦ absurd (outside m i q d o (ground arith) (ground arith))
      | inr apart ↦ ground (arith, r.kept i (taken m i q d o))
    ]

    filled-live :
        (i : ℕ) → Owns (filled.node_array.at from) i → (filled.edge_list.at i).target ≢ dummy_target
    filled-live i o e = elim (Bool-cases (node.first_edge + node.edges == i)) [
      | inl here ↦ ne (ground arith)
      | inr apart ↦ r.live i (ground arith) (ground arith)
    ]

    filled-Inserted : Inserted g from to payload filled
    filled-Inserted = record {
      valid = record {
        fits = λ n q. elim (Bool-cases (from == n)) [
          | inl here ↦ ground (arith, r.inside)
          | inr apart ↦ ground (arith, h.fits n q, r.grows)
        ];
        live = λ n i q o e. elim (Bool-cases (from == n)) [
          | inl here ↦ filled-live i (ground arith) (ground arith)
          | inr apart ↦
              let old : Owns (g.node_array.at n) i = ground arith in
              h.live n i q old (ap (λ x. x.target) (sym (kept n i q (ground arith) old)) ∙ e)
        ];
        apart = λ m n i q q' d o o'. elim (Bool-cases (from == m)) [
          | inl here ↦ outside n i q' (ground arith) (ground arith) (ground arith) (ground arith)
          | inr apart ↦ elim (Bool-cases (from == n)) [
            | inl here ↦ outside m i q (ground arith) (ground arith) (ground arith) (ground arith)
            | inr other ↦ h.apart m n i q q' d (ground arith) (ground arith)
          ]
        ];
      };
      added = λ p.
          let place = node.first_edge + node.edges in
          let old =
            occurrences-ext p filled.edge_list w node.first_edge node.first_edge node.edges
              (λ k q. ground arith) in
          let snoc =
            occurrences-snoc p filled.edge_list node.first_edge node.edges (node.edges + 1)
              (omega arith) in
          ground (arith, old, snoc, r.same p);
      others = λ m q d. record { node = ground arith; edge = λ i o. kept m i q d o };
      total = refl;
    }

  -- InsertEdge in a valid graph, whatever room the node's range has: the node has the edge once more
  -- and every other edge as often as before, all other nodes have the same edges in the same slots,
  -- and the graph stays valid.
  pub insert_edge_correct :
      (g : DynamicGraph D) (from to : ℕ) (payload : D)
      → IsValid g
      → from < g.node_array.size
      → to ≢ dummy_target
      → Inserted g from to payload (insert_edge g from to payload).1
  unfolding insert_edge
  insert_edge_correct g from to payload h inside ne =
      let v = g.edge_list in
      let node = g.node_array.at from in
      let r = make_room-Room v node (λ i o. h.live from i inside o) (h.fits from inside) in
      filled-Inserted g from to payload h inside ne (make_room v node).0 (make_room v node).1 r
