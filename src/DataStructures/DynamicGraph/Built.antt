-- ===== src/DataStructures/DynamicGraph/Built.antt =====
-- osrm-backend/data_structures/dynamic_graph.hpp: what the constructor from a sorted list leaves.
use maiden.Prelude.{
  ℕ, ◌+◌, ◌-◌, ◌≤◌, ◌<◌, ◌≡◌, refl, sym, ap, ◌∙◌, ◌≢◌, ltb, ◌==◌, Vector, write, arith, inl, inr,
  Bool-cases, ◌↔◌,
}
use maiden.DataStructures.DynamicGraph.{Node, Edge, DynamicGraph, dummy_target}
use maiden.DataStructures.DynamicGraph.Ranges.{Owns, IsValid}
use maiden.DataStructures.DynamicGraph.Build.{
  InputEdge, fill_nodes, fill_edges, build, edge_of, IsSorted,
}
use maiden.DataStructures.DynamicGraph.FillNodes.{
  Chain-write, Chain-fits, Filled, fill_nodes-Filled,
}
use maiden.DataStructures.DynamicGraph.FillEdges.{Copied, fill_edges-Copied}

module _ {ℓ} {D : Type ℓ} where
  -- What the constructor leaves.
  pub record Built (n : ℕ) (graph : Vector (InputEdge D)) (g : DynamicGraph D) : Type ℓ where
    pub valid : IsValid g
    pub owns :
        (m i : ℕ)
        → m < n
        → Owns (g.node_array.at m) i ↔ ((i < graph.size) × ((graph.at i).source ≡ m))
    pub entry : (i : ℕ) → i < graph.size → g.edge_list.at i ≡ edge_of (graph.at i)
    pub nodes : g.number_of_nodes ≡ n
    pub edges : g.number_of_edges ≡ graph.size

  module _ (n : ℕ) (graph : Vector (InputEdge D)) (slots : ℕ → Edge D)
      (sources : (i : ℕ) → i < graph.size → (graph.at i).source < n)
      (targets : (i : ℕ) → i < graph.size → (graph.at i).target ≢ dummy_target)
      (blank filled : Vector Node) (finish : ℕ) (nothing : (i : ℕ) → (blank.at i).edges ≡ 0)
      (places : blank.size ≡ n + 1) (f : Filled graph n 0 0 blank filled finish) where
    abbrev array : Vector Node
    array =
        write filled (filled.size - 1)
          (record (filled.at (filled.size - 1)) { first_edge = finish })

    abbrev result : DynamicGraph D
    result = record {
      number_of_nodes = n;
      number_of_edges = graph.size;
      node_array = array;
      edge_list = fill_edges n graph array 0 0 (record { size = finish; at = slots });
    }

    all_read : finish ≡ graph.size
    all_read = elim (Bool-cases (ltb finish graph.size)) [
      | inl less ↦ absurd (
          omega (arith, f.cut.2 finish (omega arith) (ground arith), sources finish (ground arith)))
      | inr same ↦ ground (arith, f.cut.0)
    ]

    last : filled.size - 1 ≡ n
    last = omega (arith, f.size, places)

    kept_node : (m : ℕ) → m < n → array.at m ≡ filled.at m
    kept_node m q = elim (Bool-cases (filled.size - 1 == m)) [
      | inl here ↦ absurd (ground (arith, last))
      | inr apart ↦ ground arith
    ]

    sentinel :
        (m : ℕ) → m < filled.size → n ≤ m → (array.at m).first_edge + (array.at m).edges ≡ finish
    sentinel m q h =
        ground (
          arith,
          last,
          f.behind m (omega arith),
          f.behind n (omega arith),
          nothing m,
          f.size,
          places,
        )

    sentinel-Owns : (m i : ℕ) → m < filled.size → n ≤ m → Owns (array.at m) i → ⊥
    sentinel-Owns m i q h o =
        ground (arith, last, f.behind m (omega arith), nothing m, f.size, places)

    copied : Copied graph 0 finish (record { size = finish; at = slots }) result.edge_list
    copied =
        fill_edges-Copied n graph array 0 0 finish (record { size = finish; at = slots })
          (Chain-write n filled 0 0 finish (filled.size - 1)
            (record (filled.at (filled.size - 1)) { first_edge = finish }) (omega (arith, last))
            f.chain)

    owned : (m i : ℕ) → m < n → Owns (array.at m) i ↔ ((i < graph.size) × ((graph.at i).source ≡ m))
    owned m i q = rw (kept_node m q) (f.owns m (omega arith) (omega arith) i)

    of_node :
        (m i : ℕ)
        → m < filled.size
        → Owns (array.at m) i
        → (i < graph.size) × ((graph.at i).source ≡ m)
    of_node m i q o = elim (Bool-cases (ltb m n)) [
      | inl real ↦ (owned m i (ground arith)).0 o
      | inr end ↦ absurd (sentinel-Owns m i q (ground arith) o)
    ]

    built : Built n graph result
    built = record {
      valid = record {
        fits = λ m q. elim (Bool-cases (ltb m n)) [
          | inl real ↦ ground (
            arith,
            kept_node m (ground arith),
            copied.size,
            (Chain-fits n filled 0 0 finish f.chain).1 m (omega arith) (ground arith),
          )
          | inr end ↦ ground (arith, sentinel m q (ground arith), copied.size)
        ];
        live = λ m i q o e.
            let k = of_node m i q o in
            targets i k.0 (
              ap (λ x. x.target) (sym (copied.entry i (omega arith) (omega (arith, k.0, all_read))))
              ∙ e);
        apart = λ m k i q q' d o o'. d (sym (of_node m i q o).1 ∙ (of_node k i q' o').1);
      };
      owns = owned;
      entry = λ i q. copied.entry i (omega arith) (omega (arith, q, all_read));
      nodes = refl;
      edges = refl;
    }

  -- The graph constructed from a list of edges that is sorted by source, with sources among the nodes
  -- and no dummy among the targets: the slots of a node are the positions of its edges in the list,
  -- they hold these edges, and the graph is valid.
  pub build_correct :
      (n : ℕ) (graph : Vector (InputEdge D)) (slots : ℕ → Edge D)
      → IsSorted graph
      → ((i : ℕ) → i < graph.size → (graph.at i).source < n)
      → ((i : ℕ) → i < graph.size → (graph.at i).target ≢ dummy_target)
      → Built n graph (build n graph slots)
  unfolding build
  build_correct n graph slots sorted sources targets =
      let blank : Vector Node = record {
        size = n + 1;
        at = λ i. record { first_edge = 0; edges = 0 };
      } in
      let filled = fill_nodes n graph 0 0 0 blank in
      let f =
        fill_nodes-Filled n graph 0 0 blank sorted
          (omega arith, (λ k q. absurd (omega arith)), (λ k a b. omega arith)) in
      built n graph slots sources targets blank filled.0 filled.1 (λ i. refl) refl f
