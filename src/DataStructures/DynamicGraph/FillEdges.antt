-- ===== src/DataStructures/DynamicGraph/FillEdges.antt =====
-- osrm-backend/data_structures/dynamic_graph.hpp: the slots of a graph constructed from a sorted
-- list.
use maiden.Prelude.{
  ℕ, zero, suc, ◌+◌, ◌≤◌, ◌<◌, ◌≡◌, refl, ap, ◌∙◌, true, ltb, ◌==◌, Vector, write, arith, inl, inr,
  Bool-cases,
}
use maiden.DataStructures.DynamicGraph.{Node, Edge}
use maiden.DataStructures.DynamicGraph.Build.{InputEdge, fill_range, fill_edges, edge_of}
use maiden.DataStructures.DynamicGraph.FillNodes.{Chain}

module _ {ℓ} {D : Type ℓ} where
  -- The slots from `s` to `e` hold the edges of the list at these positions, the others are kept.
  pub record Copied (graph : Vector (InputEdge D)) (s e : ℕ) (v w : Vector (Edge D)) : Type ℓ where
    pub ordered : s ≤ e
    pub entry : (j : ℕ) → s ≤ j → j < e → w.at j ≡ edge_of (graph.at j)
    pub kept : (j : ℕ) → (s ≤ j → j < e → ⊥) → w.at j ≡ v.at j
    pub size : w.size ≡ v.size

  fill_range-next :
      (n : ℕ) (graph : Vector (InputEdge D)) (i edge : ℕ) (v : Vector (Edge D))
      → (fill_range n graph i edge v).1 ≡ edge + n
  unfolding fill_range
  fill_range-next zero graph i edge v = omega arith
  fill_range-next (suc n) graph i edge v =
      omega
        (arith, fill_range-next n graph (i + 1) (edge + 1) (write v i (edge_of (graph.at edge))))

  fill_range-Copied :
      (n : ℕ) (graph : Vector (InputEdge D)) (i edge : ℕ) (v : Vector (Edge D))
      → i ≡ edge
      → Copied graph edge (edge + n) v (fill_range n graph i edge v).0
  unfolding fill_range
  fill_range-Copied zero graph i edge v e = record {
    ordered = omega arith;
    entry = λ j a b. absurd (omega arith);
    kept = λ j q. refl;
    size = refl;
  }
  fill_range-Copied (suc n) graph i edge v e =
      let w = write v i (edge_of (graph.at edge)) in
      let f = fill_range-Copied n graph (i + 1) (edge + 1) w (omega arith) in
      record {
        ordered = omega arith;
        entry = λ j a b. elim (Bool-cases (edge == j)) [
          | inl here ↦
              let this : (i == j) ≡ true = ground (arith, e) in
              let same : edge ≡ j = ground arith in
              f.kept j (λ x y. ground arith) ∙ rw this (ap (λ k. edge_of (graph.at k)) same)
          | inr apart ↦ f.entry j (ground arith) (omega arith)
        ];
        kept = λ j q. elim (Bool-cases (edge == j)) [
          | inl here ↦ absurd (q (ground arith) (ground arith))
          | inr apart ↦ f.kept j (λ x y. q (omega arith) (omega arith)) ∙ ground (arith, e)
        ];
        size = f.size;
      }

  Copied-append :
      (graph : Vector (InputEdge D)) (a b c : ℕ) (u v w : Vector (Edge D))
      → Copied graph a b u v
      → Copied graph b c v w
      → Copied graph a c u w
  Copied-append graph a b c u v w f g = record {
    ordered = omega (arith, f.ordered, g.ordered);
    entry = λ j x y. elim (Bool-cases (ltb j b)) [
      | inl first ↦ g.kept j (λ p q. ground arith) ∙ f.entry j x (ground arith)
      | inr second ↦ g.entry j (ground arith) y
    ];
    kept = λ j q.
        g.kept j (λ x y. q (omega (arith, f.ordered)) y)
        ∙ f.kept j (λ x y. q x (omega (arith, g.ordered)));
    size = g.size ∙ f.size;
  }

  pub fill_edges-Copied :
      (n : ℕ) (graph : Vector (InputEdge D)) (nodes : Vector Node) (node edge finish : ℕ)
      (v : Vector (Edge D))
      → Chain n nodes node edge finish
      → Copied graph edge finish v (fill_edges n graph nodes node edge v)
  unfolding fill_edges
  fill_edges-Copied zero graph nodes node edge finish v h = record {
    ordered = omega (arith, h);
    entry = λ j a b. absurd (omega (arith, h));
    kept = λ j q. refl;
    size = refl;
  }
  fill_edges-Copied (suc n) graph nodes node edge finish v h =
      let count = (nodes.at node).edges in
      let w = (fill_range count graph (nodes.at node).first_edge edge v).0 in
      let front = fill_range-Copied count graph (nodes.at node).first_edge edge v h.0 in
      let next = fill_range-next count graph (nodes.at node).first_edge edge v in
      let rest = fill_edges-Copied n graph nodes (node + 1) (edge + count) finish w h.1 in
      rw (next, fill_edges)
        (Copied-append graph edge (edge + count) finish v w
          (fill_edges n graph nodes (node + 1) (edge + count) w) front rest)
