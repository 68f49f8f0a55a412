-- ===== src/DataStructures/DynamicGraph/Find.antt =====
-- osrm-backend/data_structures/dynamic_graph.hpp: FindEdge.
use maiden.Typedefs.{special_edgeid}
use maiden.Prelude.{
  ℕ, zero, suc, ◌+◌, ◌≤◌, ◌<◌, ◌≡◌, refl, ◌≢◌, ◌==◌, ◌⊎◌, inl, inr, true, false, Bool-cases, Vector,
  arith,
}
use maiden.DataStructures.DynamicGraph.{
  Edge, DynamicGraph, find_from, find_edge, find_edge_in_either_direction,
}
use maiden.DataStructures.DynamicGraph.Ranges.{Owns, IsValid}

module _ {ℓ} {D : Type ℓ} where
  abbrev FoundIn : Vector (Edge D) → ℕ → ℕ → ℕ → ℕ → Type 0
  FoundIn v i n to r =
      ((r ≡ special_edgeid) × ((j : ℕ) → i ≤ j → j < i + n → (v.at j).target ≢ to))
      ⊎ ((i ≤ r)
          × (r < i + n)
          × ((v.at r).target ≡ to)
          × ((j : ℕ) → i ≤ j → j < r → (v.at j).target ≢ to))

  find_from-FoundIn :
      (n : ℕ) (v : Vector (Edge D)) (i to : ℕ) → FoundIn v i n to (find_from n v i to)
  unfolding find_from
  find_from-FoundIn zero v i to = inl (refl, λ j a b. absurd (omega arith))
  find_from-FoundIn (suc n) v i to = elim (Bool-cases (to == (v.at i).target)) [
    | inl here ↦
        rw (here, find_from)
          (inr (omega arith, omega arith, ground arith, λ j a b. absurd (omega arith)))
    | inr other ↦
        rw (other, find_from)
          (elim (find_from-FoundIn n v (i + 1) to) [
            | inl none ↦ inl (
              none.0,
              λ j a b e. elim (Bool-cases (i == j)) [
                | inl here ↦ ground arith
                | inr apart ↦ none.1 j (ground arith) (omega arith) e
              ],
            )
            | inr f ↦ inr (
              omega (arith, f.0),
              omega (arith, f.1),
              f.2,
              λ j a b e. elim (Bool-cases (i == j)) [
                | inl here ↦ ground arith
                | inr apart ↦ f.3 j (ground arith) b e
              ],
            )
          ])
  ]

  -- Edges of a node that lead to another: `r` is the first slot of one, or the special id if there is none.
  abbrev pub IsFirst : DynamicGraph D → ℕ → ℕ → ℕ → Type 0
  IsFirst g from to r =
      ((r ≡ special_edgeid)
        × ((j : ℕ) → Owns (g.node_array.at from) j → (g.edge_list.at j).target ≢ to))
      ⊎ (Owns (g.node_array.at from) r
          × ((g.edge_list.at r).target ≡ to)
          × ((j : ℕ) → Owns (g.node_array.at from) j → j < r → (g.edge_list.at j).target ≢ to))

  find_edge-IsFirst : (g : DynamicGraph D) (from to : ℕ) → IsFirst g from to (find_edge g from to)
  unfolding find_edge
  find_edge-IsFirst g from to =
      let node = g.node_array.at from in
      elim (find_from-FoundIn node.edges g.edge_list node.first_edge to) [
        | inl none ↦ inl (none.0, λ j o. none.1 j o.0 o.1)
        | inr f ↦ inr ((f.0, f.1), f.2, λ j o q. f.3 j o.0 q)
      ]

  abbrev pub IsEither : DynamicGraph D → ℕ → ℕ → ℕ → Type 0
  IsEither g from to r =
      (Owns (g.node_array.at from) r × IsFirst g from to r)
      ⊎ (((j : ℕ) → Owns (g.node_array.at from) j → (g.edge_list.at j).target ≢ to)
          × IsFirst g to from r)

  -- FindEdgeInEitherDirection in a valid graph with fewer than 2^32 - 1 slots: the first slot of an
  -- edge from the one node to the other if there is one, and otherwise what holds of the slot found,
  -- or of the special id, the other way round.
  pub find_edge_in_either_direction_correct :
      (g : DynamicGraph D) (from to : ℕ)
      → IsValid g
      → from < g.node_array.size
      → g.edge_list.size < special_edgeid
      → IsEither g from to (find_edge_in_either_direction g from to)
  unfolding find_edge_in_either_direction
  find_edge_in_either_direction_correct g from to h inside small =
      elim (find_edge-IsFirst g from to) [
        | inl none ↦
            let special : (find_edge g from to == special_edgeid) ≡ true = ground (arith, none.0) in
            rw (special, find_edge_in_either_direction) (inr (none.1, find_edge-IsFirst g to from))
        | inr f ↦
            let real : (find_edge g from to == special_edgeid) ≡ false =
              ground (arith, f.0, h.fits from inside) in
            rw (real, find_edge_in_either_direction) (inl (f.0, find_edge-IsFirst g from to))
      ]
