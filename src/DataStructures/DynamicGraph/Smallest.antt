-- ===== src/DataStructures/DynamicGraph/Smallest.antt =====
-- osrm-backend/data_structures/dynamic_graph.hpp: GetDirectedOutDegree and FindSmallestEdge, which read
-- `reversed` and `distance` of the edge data.
use maiden.Typedefs.{special_edgeid, invalid_edge_weight}
use maiden.Prelude.{
  ℕ, zero, suc, ◌+◌, ◌≤◌, ◌<◌, ◌≡◌, refl, ◌==◌, ◌⊎◌, ◌&&◌, inl, inr, true, Bool, not, Bool-cases,
  Vector, arith, if◌then◌else◌,
}
use maiden.Prelude.Int.{ℤ, pos, ltb_ℤ, ◌≤ℤ◌}
use maiden.DataStructures.DynamicGraph.{Edge, DynamicGraph}
use maiden.DataStructures.DynamicGraph.Ranges.{Owns, occurrences, edges_with}

module _ {ℓ} {D : Type ℓ} where
  unfoldable pub count_forward : (D → Bool) → ℕ → Vector (Edge D) → ℕ → ℕ → ℕ
  count_forward reversed zero v i degree = degree
  count_forward reversed (suc n) v i degree =
      count_forward reversed n v (i + 1)
        (if not (reversed (v.at i).payload) then degree + 1 else degree)

  unfoldable pub get_directed_out_degree : (D → Bool) → DynamicGraph D → ℕ → ℕ
  unfolding count_forward
  get_directed_out_degree reversed g n =
      count_forward reversed (g.node_array.at n).edges g.edge_list (g.node_array.at n).first_edge 0

  -- The loop, with the smallest edge so far and its weight.
  unfoldable pub smallest_from : (D → ℤ) → ℕ → Vector (Edge D) → ℕ → ℕ → ℕ → ℤ → ℕ
  smallest_from distance zero v i to edge weight = edge
  smallest_from distance (suc n) v i to edge weight =
      let better = ((v.at i).target == to) && ltb_ℤ (distance (v.at i).payload) weight in
      smallest_from distance n v (i + 1) to (if better then i else edge)
        (if better then distance (v.at i).payload else weight)

  unfoldable pub find_smallest_edge : (D → ℤ) → DynamicGraph D → ℕ → ℕ → ℕ
  unfolding smallest_from
  find_smallest_edge distance g from to =
      smallest_from distance (g.node_array.at from).edges g.edge_list
        (g.node_array.at from).first_edge to special_edgeid (pos invalid_edge_weight)

  count_forward-occurrences :
      (reversed : D → Bool) (n : ℕ) (v : Vector (Edge D)) (i d : ℕ)
      → count_forward reversed n v i d ≡ occurrences (λ e. not (reversed e.payload)) v i n + d
  unfolding count_forward occurrences
  count_forward-occurrences reversed zero v i d = omega arith
  count_forward-occurrences reversed (suc n) v i d = ground (
    arith,
    count_forward-occurrences reversed n v (i + 1) (d + 1),
    count_forward-occurrences reversed n v (i + 1) d,
  )

  module _ (distance : D → ℤ) (v : Vector (Edge D)) (to : ℕ) where
    abbrev Below : ℤ → ℕ → ℕ → Type 0
    Below w i n =
        (j : ℕ) → i ≤ j → j < i + n → (v.at j).target ≡ to → w ≤ℤ distance (v.at j).payload

    abbrev Best : ℕ → ℕ → ℕ → ℤ → ℕ → Type 0
    Best n i edge weight r =
        ((r ≡ edge) × Below weight i n)
        ⊎ ((i ≤ r)
            × (r < i + n)
            × ((v.at r).target ≡ to)
            × (ltb_ℤ (distance (v.at r).payload) weight ≡ true)
            × Below (distance (v.at r).payload) i n)

    smallest_from-Best :
        (n i edge : ℕ) (weight : ℤ)
        → Best n i edge weight (smallest_from distance n v i to edge weight)
    unfolding smallest_from
    smallest_from-Best zero i edge weight = inl (refl, λ j a b e. absurd (omega arith))
    smallest_from-Best (suc n) i edge weight =
        elim (Bool-cases (((v.at i).target == to) && ltb_ℤ (distance (v.at i).payload) weight)) [
          | inl better ↦
              rw (better, smallest_from)
                (elim (smallest_from-Best n (i + 1) i (distance (v.at i).payload)) [
                  | inl stay ↦ inr (
                    omega (arith, stay.0),
                    omega (arith, stay.0),
                    ground (arith, stay.0),
                    ground (arith, stay.0),
                    λ j a b e. elim (Bool-cases (i == j)) [
                      | inl here ↦ ground (arith, stay.0)
                      | inr apart ↦ ground (arith, stay.0, stay.1 j (ground arith) (omega arith) e)
                    ],
                  )
                  | inr other ↦ inr (
                    omega (arith, other.0),
                    omega (arith, other.1),
                    other.2,
                    ground (arith, other.3),
                    λ j a b e. elim (Bool-cases (i == j)) [
                      | inl here ↦ ground (arith, other.3)
                      | inr apart ↦ other.4 j (ground arith) (omega arith) e
                    ],
                  )
                ])
          | inr worse ↦
              rw (worse, smallest_from)
                (elim (smallest_from-Best n (i + 1) edge weight) [
                  | inl stay ↦ inl (
                    stay.0,
                    λ j a b e. elim (Bool-cases (i == j)) [
                      | inl here ↦ ground arith
                      | inr apart ↦ stay.1 j (ground arith) (omega arith) e
                    ],
                  )
                  | inr other ↦ inr (
                    omega (arith, other.0),
                    omega (arith, other.1),
                    other.2,
                    other.3,
                    λ j a b e. elim (Bool-cases (i == j)) [
                      | inl here ↦ ground (arith, other.3)
                      | inr apart ↦ other.4 j (ground arith) (omega arith) e
                    ],
                  )
                ])
        ]

  abbrev pub AtLeast : (D → ℤ) → DynamicGraph D → ℕ → ℕ → ℤ → Type 0
  AtLeast distance g from to w =
      (j : ℕ)
      → Owns (g.node_array.at from) j
      → (g.edge_list.at j).target ≡ to
      → w ≤ℤ distance (g.edge_list.at j).payload

  -- A slot of least weight among those of the edges to a node; or the special id, if no edge to it
  -- has a weight below the invalid one.
  abbrev pub IsSmallest : (D → ℤ) → DynamicGraph D → ℕ → ℕ → ℕ → Type 0
  IsSmallest distance g from to r =
      ((r ≡ special_edgeid) × AtLeast distance g from to (pos invalid_edge_weight))
      ⊎ (Owns (g.node_array.at from) r
          × ((g.edge_list.at r).target ≡ to)
          × (ltb_ℤ (distance (g.edge_list.at r).payload) (pos invalid_edge_weight) ≡ true)
          × AtLeast distance g from to (distance (g.edge_list.at r).payload))

  -- FindSmallestEdge returns a slot of the node's edges to the other node that has the least weight
  -- of them; or the special id, if none of them has a weight below the invalid one.
  pub find_smallest_edge_correct :
      (distance : D → ℤ) (g : DynamicGraph D) (from to : ℕ)
      → IsSmallest distance g from to (find_smallest_edge distance g from to)
  unfolding find_smallest_edge
  find_smallest_edge_correct distance g from to =
      let node = g.node_array.at from in
      elim (smallest_from-Best distance g.edge_list to node.edges node.first_edge special_edgeid
        (pos invalid_edge_weight)) [
          | inl none ↦ inl (none.0, λ j o e. none.1 j o.0 o.1 e)
          | inr f ↦ inr ((f.0, f.1), f.2, f.3, λ j o e. f.4 j o.0 o.1 e)
        ]

  pub get_directed_out_degree_correct :
      (reversed : D → Bool) (g : DynamicGraph D) (n : ℕ)
      → get_directed_out_degree reversed g n ≡ edges_with (λ e. not (reversed e.payload)) g n
  unfolding get_directed_out_degree
  get_directed_out_degree_correct reversed g n =
      let node = g.node_array.at n in
      omega (arith, count_forward-occurrences reversed node.edges g.edge_list node.first_edge 0)
