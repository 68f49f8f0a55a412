-- ===== src/DataStructures/StaticGraph/Tests.antt =====
-- Three edges between three nodes: from 0 to 1, from 0 to 2 and from 2 to 0.
use maiden.Typedefs.{special_edgeid, invalid_edge_weight}
use maiden.Prelude.{
  ℕ, ◌+◌, ◌*◌, ◌≤◌, ◌<◌, ◌≡◌, ◌⊎◌, refl, true, false, Vector, ltb, ◌==◌, if◌then◌else◌, arith,
}
use maiden.DataStructures.StaticGraph.{
  InputEdge, StaticGraph, new_static_graph, find_edge, find_smallest_edge,
  find_edge_indicate_if_reverse, skip_edges,
}
use maiden.DataStructures.StaticGraph.Build.{IsSorted, IsStored, new_static_graph-IsStored}
use maiden.DataStructures.StaticGraph.Find.{Joins, find_edge_indicate_if_reverse-cases}
use maiden.DataStructures.StaticGraph.Smallest.{find_smallest_edge-least}

abbrev three_edges : Vector (InputEdge ℕ)
three_edges = record {
  size = 3;
  at = λ e. record {
    source = if e == 2 then 2 else if ltb e 2 then 0 else 3;
    target = if e == 2 then 0 else e + 1;
    edge_data = 7 * e;
  };
}

three-IsSorted : IsSorted three_edges
unfolding IsSorted
three-IsSorted i j le lt = ground arith

three_sources : (e : ℕ) → e < 3 → (three_edges.at e).source < 3
three_sources e lt = ground arith

abbrev three : StaticGraph ℕ
three =
    new_static_graph (record { size = 0; at = λ v. 55 })
      (record { size = 0; at = λ e. record { target = 66; edge_data = 77 } }) 3 three_edges

third : find_edge three 2 0 ≡ 2
unfolding find_edge new_static_graph skip_edges
third = refl

three-IsStored : IsStored three_edges 3 three
three-IsStored =
    new_static_graph-IsStored three_edges three-IsSorted 3 three_sources
      (record { size = 0; at = λ v. 55 })
      (record { size = 0; at = λ e. record { target = 66; edge_data = 77 } }) (omega arith)

new_static_graph-IsStored_example : IsStored three_edges 3 three
new_static_graph-IsStored_example =
    new_static_graph-IsStored three_edges three-IsSorted 3 three_sources
      (record { size = 0; at = λ v. 55 })
      (record { size = 0; at = λ e. record { target = 66; edge_data = 77 } }) (omega arith)

find_edge_indicate_if_reverse-cases_example :
    let r = find_edge_indicate_if_reverse three 1 0 false in
    (Joins three_edges 1 0 r.0 × (r.1 ≡ false))
    ⊎ (((e : ℕ) → Joins three_edges 1 0 e → ⊥) × Joins three_edges 0 1 r.0 × (r.1 ≡ true))
    ⊎ (((e : ℕ) → Joins three_edges 1 0 e → ⊥)
        × ((e : ℕ) → Joins three_edges 0 1 e → ⊥)
        × (r.0 ≡ special_edgeid)
        × (r.1 ≡ false))
find_edge_indicate_if_reverse-cases_example =
    find_edge_indicate_if_reverse-cases three_edges three-IsSorted 3 three three-IsStored
      (omega arith) 1 0 (omega arith) (omega arith) false

find_smallest_edge-least_example :
    let r = find_smallest_edge (λ d. d) three 0 2 in
    ((r ≡ special_edgeid)
      × ((e : ℕ) → Joins three_edges 0 2 e → invalid_edge_weight ≤ (three_edges.at e).edge_data))
    ⊎ (Joins three_edges 0 2 r
        × ((e : ℕ)
            → Joins three_edges 0 2 e
            → (three_edges.at r).edge_data ≤ (three_edges.at e).edge_data))
find_smallest_edge-least_example =
    find_smallest_edge-least (λ d. d) three_edges three-IsSorted 3 three three-IsStored 0 2
      (omega arith)
