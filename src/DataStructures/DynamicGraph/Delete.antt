-- ===== src/DataStructures/DynamicGraph/Delete.antt =====
-- osrm-backend/data_structures/dynamic_graph.hpp: DeleteEdge.
use maiden.Prelude.{
  ℕ, ◌+◌, ◌-◌, ◌≤◌, ◌<◌, ◌≡◌, refl, sym, ap, ◌∙◌, ◌≢◌, Bool, ◌==◌, Vector, write, arith, inl, inr,
  Bool-cases,
}
use maiden.DataStructures.DynamicGraph.{Edge, DynamicGraph, dummy_target, remove_at, delete_edge}
use maiden.DataStructures.DynamicGraph.Ranges.{
  one, occurrences, edges_with, Owns, IsValid, SameEdges, occurrences-ext, occurrences-snoc,
  occurrences-write,
}

module _ {ℓ} {D : Type ℓ} where
  -- The last edge of a range takes the place of another one.
  pub occurrences-remove_at :
      (p : Edge D → Bool) (v : Vector (Edge D)) (s n m i last : ℕ)
      → m ≡ n + 1
      → last ≡ s + n
      → s ≤ i
      → i ≤ last
      → occurrences p (remove_at v i last) s n + one (p (v.at i)) ≡ occurrences p v s m
  occurrences-remove_at p v s n m i last em el a b =
      let w = write v i (v.at last) in
      let shorter = occurrences-ext p (remove_at v i last) w s s n (λ k q. ground (arith, el)) in
      let snoc = occurrences-snoc p v s n m em in
      elim (Bool-cases (i == last)) [
        | inl here ↦
            let same = occurrences-ext p w v s s n (λ k q. ground (arith, el)) in
            let place : i ≡ s + n = ground arith in
            omega (arith, shorter, snoc, same, ap (λ j. one (p (v.at j))) place)
        | inr apart ↦
            let swapped = occurrences-write p v i (v.at last) s n a (ground (arith, el)) in
            omega (arith, shorter, snoc, swapped, ap (λ j. one (p (v.at j))) el)
      ]

  -- What a removal leaves in the slots before the last.
  pub remove_at-live :
      (v : Vector (Edge D)) (s i last j : ℕ)
      → ((k : ℕ) → s ≤ k → k ≤ last → (v.at k).target ≢ dummy_target)
      → s ≤ j
      → j < last
      → ((remove_at v i last).at j).target ≢ dummy_target
  remove_at-live v s i last j h a b e = elim (Bool-cases (i == j)) [
    | inl here ↦ h last (omega arith) (omega arith) (ground arith)
    | inr apart ↦ h j a (omega arith) (ground arith)
  ]

  -- What DeleteEdge leaves.
  pub record Deleted (g : DynamicGraph D) (source e : ℕ) (h : DynamicGraph D) : Type ℓ where
    pub valid : IsValid h
    pub removed :
        (p : Edge D → Bool)
        → edges_with p h source + one (p (g.edge_list.at e)) ≡ edges_with p g source
    pub others : (m : ℕ) → m < g.node_array.size → m ≢ source → SameEdges g h m
    pub total : h.number_of_edges ≡ g.number_of_edges - 1

  -- The other nodes keep their edges when those of one node change in its range only, which shrinks.
  pub shrink-SameEdges :
      (g : DynamicGraph D) (source count total : ℕ) (w : Vector (Edge D))
      → IsValid g
      → source < g.node_array.size
      → ((j : ℕ) → (Owns (g.node_array.at source) j → ⊥) → w.at j ≡ g.edge_list.at j)
      → (m : ℕ) → m < g.node_array.size
      → m ≢ source
      → SameEdges g
          (record g {
            number_of_edges = total;
            node_array =
                write g.node_array source (record (g.node_array.at source) { edges = count });
            edge_list = w;
          })
          m
  shrink-SameEdges g source count total w h inside same m q d = record {
    node = ground arith;
    edge = λ i o. same i (λ o'. h.apart m source i q inside d o o');
  }

  pub shrink-IsValid :
      (g : DynamicGraph D) (source count total : ℕ) (w : Vector (Edge D))
      → IsValid g
      → source < g.node_array.size
      → count ≤ (g.node_array.at source).edges
      → w.size ≡ g.edge_list.size
      → ((j : ℕ) → (Owns (g.node_array.at source) j → ⊥) → w.at j ≡ g.edge_list.at j)
      → ((j : ℕ)
          → (g.node_array.at source).first_edge ≤ j
          → j < (g.node_array.at source).first_edge + count
          → (w.at j).target ≢ dummy_target)
      → IsValid (record g {
        number_of_edges = total;
        node_array = write g.node_array source (record (g.node_array.at source) { edges = count });
        edge_list = w;
      })
  shrink-IsValid g source count total w h inside less size same live = record {
    fits = λ n q. elim (Bool-cases (source == n)) [
      | inl here ↦ ground (arith, h.fits source inside)
      | inr apart ↦ ground (arith, h.fits n q)
    ];
    live = λ n i q o e. elim (Bool-cases (source == n)) [
      | inl here ↦ live i (ground arith) (ground arith) e
      | inr apart ↦
          let old : Owns (g.node_array.at n) i = ground arith in
          h.live n i q old (
            ap (λ x. x.target)
              (sym (same i (λ o'. h.apart n source i q inside (ground arith) old o')))
            ∙ e)
    ];
    apart = λ m n i q q' d o o'. h.apart m n i q q' d (ground arith) (ground arith);
  }

  -- DeleteEdge of a slot of the node: the node loses that edge once and keeps every other as often as
  -- before, all other nodes keep theirs in the same slots, and the graph stays valid.
  pub delete_edge_correct :
      (g : DynamicGraph D) (source e : ℕ)
      → IsValid g
      → source < g.node_array.size
      → Owns (g.node_array.at source) e
      → Deleted g source e (delete_edge g source e)
  unfolding delete_edge
  delete_edge_correct g source e h inside o =
      let node = g.node_array.at source in
      let count = node.edges - 1 in
      let last = node.first_edge + count in
      let w = remove_at g.edge_list e last in
      let same : (j : ℕ) → (Owns node j → ⊥) → w.at j ≡ g.edge_list.at j = λ j away.
        elim (Bool-cases (e == j)) [
          | inl here ↦ absurd (away (ground (arith, o), ground (arith, o)))
          | inr apart ↦ elim (Bool-cases (last == j)) [
            | inl here ↦ absurd (away (ground (arith, o), ground (arith, o)))
            | inr elsewhere ↦ ground arith
          ]
        ] in
      record {
        valid =
            shrink-IsValid g source count (g.number_of_edges - 1) w h inside (omega arith) refl same
              (λ j a b.
                remove_at-live g.edge_list node.first_edge e last j
                  (λ k x y. h.live source k inside (x, omega (arith, o))) a b);
        removed = λ p.
            let removed =
              occurrences-remove_at p g.edge_list node.first_edge count node.edges e last
                (omega (arith, o)) refl o.0 (omega (arith, o)) in
            ground (arith, removed);
        others = shrink-SameEdges g source count (g.number_of_edges - 1) w h inside same;
        total = refl;
      }
