-- ===== src/DataStructures/DynamicGraph/DeleteTo.antt =====
-- osrm-backend/data_structures/dynamic_graph.hpp: DeleteEdgesTo.
use maiden.Prelude.{ℕ, ◌+◌, ◌-◌, ◌<◌, ◌≡◌, refl, ap, ◌≢◌, Bool, arith}
use maiden.DataStructures.DynamicGraph.{Edge, DynamicGraph, remove_from, delete_edges_to}
use maiden.DataStructures.DynamicGraph.Ranges.{occurrences, edges_with, Owns, IsValid, SameEdges}
use maiden.DataStructures.DynamicGraph.Delete.{shrink-IsValid, shrink-SameEdges}
use maiden.DataStructures.DynamicGraph.Clear.{
  leads_to, other_with, remove_from-Finished, IsClean-none,
}

module _ {ℓ} {D : Type ℓ} where
  -- What DeleteEdgesTo leaves.
  pub record Cut (g : DynamicGraph D) (source target deleted : ℕ) (h : DynamicGraph D)
      : Type ℓ where
    pub valid : IsValid h
    pub count : deleted ≡ edges_with (leads_to target) g source
    pub none_left : edges_with (leads_to target) h source ≡ 0
    pub kept :
        (p : Edge D → Bool)
        → edges_with (other_with target p) h source ≡ edges_with (other_with target p) g source
    pub others : (m : ℕ) → m < g.node_array.size → m ≢ source → SameEdges g h m
    pub total : h.number_of_edges ≡ g.number_of_edges - deleted

  -- DeleteEdgesTo in a valid graph returns how many edges led to the target, leaves none of them,
  -- keeps every other edge of the node as often as before and the edges of all other nodes in their
  -- slots, and the graph stays valid.
  pub delete_edges_to_correct :
      (g : DynamicGraph D) (source target : ℕ)
      → IsValid g
      → source < g.node_array.size
      → Cut g source target (delete_edges_to g source target).0 (delete_edges_to g source target).1
  unfolding delete_edges_to
  delete_edges_to_correct g source target h inside =
      let node = g.node_array.at source in
      let s = node.first_edge in
      let n = node.edges in
      let r = remove_from n g.edge_list s (s + n) target 0 in
      let (c, clean) =
        remove_from-Finished target s n n g.edge_list s 0 (omega arith) (omega arith) (omega arith)
          (λ j a b q e. omega arith) in
      let whole : n - 0 ≡ n = omega arith in
      let none : occurrences (leads_to target) r.0 s (n - r.1) ≡ 0 =
        IsClean-none target s n (n - r.1) s r.0
          (λ j a b. clean j a (omega (arith, c.most)) (omega (arith, c.most))) in
      let same : (j : ℕ) → (Owns node j → ⊥) → r.0.at j ≡ g.edge_list.at j =
        λ j q. c.outside j (λ a b. q (a, b)) in
      record {
        valid =
            shrink-IsValid g source (n - r.1) (g.number_of_edges - r.1) r.0 h inside (omega arith)
              c.size same
              (λ j a b.
                c.live (λ k x y. h.live source k inside (x, omega arith)) j a
                  (omega (arith, c.most)));
        count =
            omega
              (arith, none, c.gone, ap (λ m. occurrences (leads_to target) g.edge_list s m) whole);
        none_left = ground (arith, none);
        kept = λ p. ground (arith, c.others p);
        others = shrink-SameEdges g source (n - r.1) (g.number_of_edges - r.1) r.0 h inside same;
        total = refl;
      }
