-- ===== src/DataStructures/StaticGraph/Smallest.antt =====
-- osrm-backend/data_structures/static_graph.hpp: FindSmallestEdge.
use maiden.Typedefs.{special_edgeid, invalid_edge_weight}
use maiden.Prelude.{
  ℕ, zero, suc, ◌+◌, ◌-◌, ◌≤◌, ◌<◌, ◌≡◌, ◌⊎◌, refl, sym, ap, ◌∙◌, false, ◌&&◌, Vector, ltb, ◌==◌,
  arith, Bool-cases, inl, inr,
}
use maiden.DataStructures.StaticGraph.{
  InputEdge, StaticGraph, find_smallest_loop, find_smallest_edge, begin_edges, end_edges,
  get_target, get_edge_data,
}
use maiden.DataStructures.StaticGraph.Build.{IsSorted, IsStored}
use maiden.DataStructures.StaticGraph.Find.{Joins, own_edge, between, target_of, ordered}

module _ {ℓ} {D : Type ℓ} (distance : D → ℕ) where
  abbrev weight_of : StaticGraph D → ℕ → ℕ
  weight_of g e = distance (get_edge_data g e)

  -- The outcome of the loop over some edges from `i` on.
  record IsBest (g : StaticGraph D) (to i count : ℕ) (b r : ℕ × ℕ) : Type 0 where
    no_worse : r.1 ≤ b.1
    least : (e : ℕ) → i ≤ e → e < i + count → get_target g e ≡ to → r.1 ≤ weight_of g e
    source :
        (r ≡ b)
        ⊎ ((i ≤ r.0) × (r.0 < i + count) × (get_target g r.0 ≡ to) × (r.1 ≡ weight_of g r.0))

  taken-IsBest :
      (g : StaticGraph D) (to i count : ℕ) (b r : ℕ × ℕ)
      → get_target g i ≡ to
      → weight_of g i < b.1
      → IsBest g to (i + 1) count (i, weight_of g i) r
      → IsBest g to i (suc count) b r
  taken-IsBest g to i count b r at lt s = record {
    no_worse = omega (arith, s.no_worse);
    least = λ e le le' same. elim (Bool-cases (e == i)) [
      | inl now ↦
          let here : e ≡ i = ground arith in omega (arith, s.no_worse, ap (weight_of g) here)
      | inr later ↦ s.least e (ground arith) (omega arith) same
    ];
    source = inr (elim s.source [
      | inl kept ↦
          let id : r.0 ≡ i = ap (λ x. x.0) kept in
          let value : r.1 ≡ weight_of g i = ap (λ x. x.1) kept in
          (omega arith, omega arith, ap (get_target g) id ∙ at, value ∙ ap (weight_of g) (sym id))
      | inr (le, le', same, value) ↦ (omega arith, omega arith, same, value)
    ]);
  }

  left-IsBest :
      (g : StaticGraph D) (to i count : ℕ) (b r : ℕ × ℕ)
      → (get_target g i == to) && ltb (weight_of g i) b.1 ≡ false
      → IsBest g to (i + 1) count b r
      → IsBest g to i (suc count) b r
  left-IsBest g to i count b r worse s = record {
    no_worse = s.no_worse;
    least = λ e le le' same. elim (Bool-cases (e == i)) [
      | inl now ↦
          let here : e ≡ i = ground arith in
          ground (arith, s.no_worse, ap (weight_of g) here, ap (get_target g) here, same)
      | inr later ↦ s.least e (ground arith) (omega arith) same
    ];
    source = elim s.source [
      | inl kept ↦ inl kept
      | inr (le, le', same, value) ↦ inr (omega arith, omega arith, same, value)
    ];
  }

  find_smallest_loop-IsBest :
      (count : ℕ) (g : StaticGraph D) (to i : ℕ) (b : ℕ × ℕ)
      → IsBest g to i count b (find_smallest_loop distance count g to i b)
  unfolding find_smallest_loop
  find_smallest_loop-IsBest zero g to i b = record {
    no_worse = omega arith;
    least = λ e le le' same. absurd (omega arith);
    source = inl refl;
  }
  find_smallest_loop-IsBest (suc count) g to i b =
      elim (Bool-cases ((get_target g i == to) && ltb (weight_of g i) b.1)) [
        | inl better ↦
            let b' : ℕ × ℕ = (i, weight_of g i) in
            rw better (
              taken-IsBest g to i count b (find_smallest_loop distance count g to (i + 1) b')
                (ground arith) (ground arith) (find_smallest_loop-IsBest count g to (i + 1) b'))
        | inr worse ↦ rw worse (
            left-IsBest g to i count b (find_smallest_loop distance count g to (i + 1) b) worse
              (find_smallest_loop-IsBest count g to (i + 1) b))
      ]

  -- In a graph that stores sorted edges, FindSmallestEdge gives an edge of the least weight from the one
  -- node to the other, or the special id, and then none has a weight below the invalid one.
  pub find_smallest_edge-least :
      (graph : Vector (InputEdge D))
      → IsSorted graph
      → (nodes : ℕ) (g : StaticGraph D) → IsStored graph nodes g
      → (from to : ℕ) → from < nodes
      → let r = find_smallest_edge distance g from to in
        ((r ≡ special_edgeid)
          × ((e : ℕ)
              → Joins graph from to e
              → invalid_edge_weight ≤ distance (graph.at e).edge_data))
        ⊎ (Joins graph from to r
            × ((e : ℕ)
                → Joins graph from to e
                → distance (graph.at r).edge_data ≤ distance (graph.at e).edge_data))
  unfolding find_smallest_edge
  find_smallest_edge-least graph sorted nodes g stored from to lt =
      let b =
        find_smallest_loop distance (end_edges g from - begin_edges g from) g to
          (begin_edges g from) (special_edgeid, invalid_edge_weight) in
      let s =
        find_smallest_loop-IsBest (end_edges g from - begin_edges g from) g to (begin_edges g from)
          (special_edgeid, invalid_edge_weight) in
      let o = ordered graph sorted nodes g stored from lt in
      let weight : (e : ℕ) → e < graph.size → weight_of g e ≡ distance (graph.at e).edge_data =
        λ e q. ap (λ x. distance x.edge_data) (stored.edges e q) in
      let least : (e : ℕ) → Joins graph from to e → b.1 ≤ distance (graph.at e).edge_data =
        λ e (inside, source, target).
          let (le, le') = own_edge graph sorted nodes g stored from e lt inside source in
          let low =
            s.least e le (omega (arith, o))
              (target_of graph sorted nodes g stored e inside ∙ target) in
          omega (arith, low, weight e inside) in
      elim s.source [
        | inl kept ↦
            inl (ap (λ x. x.0) kept, λ e joins. omega (arith, least e joins, ap (λ x. x.1) kept))
        | inr (le, le', at, value) ↦
            let (inside, source) =
              between graph sorted nodes g stored from b.0 lt le (omega (arith, o)) in
            inr (
              (inside, source, sym (target_of graph sorted nodes g stored b.0 inside) ∙ at),
              λ e joins. omega (arith, least e joins, value, weight b.0 inside),
            )
      ]
