-- ===== src/DataStructures/DynamicGraph/FillNodes.antt =====
-- osrm-backend/data_structures/dynamic_graph.hpp: the ranges of the nodes of a graph constructed
-- from a sorted list.
use mathlib.Core.Path.{subst}
use maiden.Prelude.{
  ℕ, zero, suc, ◌+◌, ◌-◌, ◌≤◌, ◌<◌, ◌≡◌, refl, ◌≢◌, false, ◌&&◌, ltb, ◌==◌, Vector, write, arith,
  inl, inr, Bool-cases, ◌↔◌,
}
use maiden.DataStructures.DynamicGraph.{Node}
use maiden.DataStructures.DynamicGraph.Ranges.{Owns}
use maiden.DataStructures.DynamicGraph.Build.{InputEdge, run_end, fill_nodes, IsSorted}

-- The ranges of `n` nodes from `node` on follow each other from `edge` to `finish`.
abbrev pub Chain : ℕ → Vector Node → ℕ → ℕ → ℕ → Type 0
Chain zero nodes node edge finish = edge ≡ finish
Chain (suc n) nodes node edge finish =
    ((nodes.at node).first_edge ≡ edge)
    × Chain n nodes (node + 1) (edge + (nodes.at node).edges) finish

pub Chain-write :
    (n : ℕ) (nodes : Vector Node) (node edge finish k : ℕ) (x : Node)
    → node + n ≤ k
    → Chain n nodes node edge finish
    → Chain n (write nodes k x) node edge finish
Chain-write zero nodes node edge finish k x h c = c
Chain-write (suc n) nodes node edge finish k x h c =
    let apart : (k == node) ≡ false = ground arith in
    rw (apart) (
      c.0,
      Chain-write n nodes (node + 1) (edge + (nodes.at node).edges) finish k x (omega arith) c.1,
    )

pub Chain-fits :
    (n : ℕ) (nodes : Vector Node) (node edge finish : ℕ)
    → Chain n nodes node edge finish
    → (edge ≤ finish)
      × ((m : ℕ) → node ≤ m → m < node + n → (nodes.at m).first_edge + (nodes.at m).edges ≤ finish)
Chain-fits zero nodes node edge finish c = (omega (arith, c), λ m a b. absurd (omega arith))
Chain-fits (suc n) nodes node edge finish c =
    let rest = Chain-fits n nodes (node + 1) (edge + (nodes.at node).edges) finish c.1 in
    (
      omega (arith, rest.0),
      λ m a b. elim (Bool-cases (node == m)) [
        | inl here ↦ ground (arith, c.0, rest.0)
        | inr apart ↦ rest.1 m (ground arith) (omega arith)
      ],
    )

module _ {ℓ} {D : Type ℓ} where
  record Run (graph : Vector (InputEdge D)) (node edge stop : ℕ) : Type 0 where
    forward : edge ≤ stop
    bounded : edge ≤ graph.size → stop ≤ graph.size
    all : (k : ℕ) → edge ≤ k → k < stop → (graph.at k).source ≡ node
    ended : stop < graph.size → (graph.at stop).source ≢ node

  run_end-Run :
      (fuel : ℕ) (graph : Vector (InputEdge D)) (node edge : ℕ)
      → graph.size ≤ fuel + edge
      → Run graph node edge (run_end fuel graph node edge)
  unfolding run_end
  run_end-Run zero graph node edge h = record {
    forward = omega arith;
    bounded = λ q. q;
    all = λ k a b. absurd (omega arith);
    ended = λ q. absurd (omega arith);
  }
  run_end-Run (suc fuel) graph node edge h =
      elim (Bool-cases (ltb edge graph.size && ((graph.at edge).source == node))) [
        | inl go ↦
            let r = run_end-Run fuel graph node (edge + 1) (omega arith) in
            rw (go, run_end)
              (record {
                forward = omega (arith, r.forward);
                bounded = λ q. r.bounded (ground arith);
                all = λ k a b. elim (Bool-cases (edge == k)) [
                  | inl here ↦ ground arith
                  | inr apart ↦ r.all k (ground arith) b
                ];
                ended = r.ended;
              })
        | inr stop ↦
            rw (stop, run_end)
              (record {
                forward = omega arith;
                bounded = λ q. q;
                all = λ k a b. absurd (omega arith);
                ended = λ q. ground arith;
              })
      ]

  -- The edges before `edge` come from nodes before `node`, the others do not.
  abbrev pub IsCut : Vector (InputEdge D) → ℕ → ℕ → Type 0
  IsCut graph node edge =
      (edge ≤ graph.size)
      × ((k : ℕ) → k < edge → (graph.at k).source < node)
      × ((k : ℕ) → edge ≤ k → k < graph.size → node ≤ (graph.at k).source)

  abbrev pub OwnsSource : Vector (InputEdge D) → Vector Node → ℕ → Type 0
  OwnsSource graph nodes m =
      (i : ℕ) → Owns (nodes.at m) i ↔ ((i < graph.size) × ((graph.at i).source ≡ m))

  pub record Filled (graph : Vector (InputEdge D)) (n node edge : ℕ) (nodes nodes' : Vector Node)
      (finish : ℕ) : Type 0 where
    pub cut : IsCut graph (node + n) finish
    pub chain : Chain n nodes' node edge finish
    pub owns : (m : ℕ) → node ≤ m → m < node + n → OwnsSource graph nodes' m
    pub before : (m : ℕ) → m < node → nodes'.at m ≡ nodes.at m
    pub behind : (m : ℕ) → node + n ≤ m → nodes'.at m ≡ nodes.at m
    pub size : nodes'.size ≡ nodes.size

  IsCut-next :
      (graph : Vector (InputEdge D)) (node edge stop : ℕ)
      → IsSorted graph
      → IsCut graph node edge
      → Run graph node edge stop
      → IsCut graph (node + 1) stop
  IsCut-next graph node edge stop sorted c r = (
    r.bounded c.0,
    (λ k q. elim (Bool-cases (ltb k edge)) [
      | inl a ↦ omega (arith, c.1 k (ground arith))
      | inr b ↦ omega (arith, r.all k (ground arith) q)
    ]),
    (λ k a b. omega (
      arith,
      c.2 k (omega (arith, r.forward)) b,
      c.2 stop r.forward (omega arith),
      r.ended (omega arith),
      sorted stop k a b,
    )),
  )

  owns-Run :
      (graph : Vector (InputEdge D)) (node edge next : ℕ) (nodes : Vector Node)
      → IsCut graph node edge
      → Run graph node edge next
      → IsCut graph (node + 1) next
      → (nodes.at node).first_edge ≡ edge
      → (nodes.at node).edges ≡ next - edge
      → OwnsSource graph nodes node
  owns-Run graph node edge next nodes c r c' f e i = (
    (λ o. (
      omega (arith, r.bounded c.0, r.forward, o.0, o.1, f, e),
      r.all i (omega (arith, o.0, f)) (omega (arith, o.0, o.1, f, e)),
    )),
    (λ o. (inside o.0 o.1, inside' o.0 o.1)),
  )
    where
      inside : i < graph.size → (graph.at i).source ≡ node → (nodes.at node).first_edge ≤ i
      inside a b = elim (Bool-cases (ltb i edge)) [
        | inl before ↦ absurd (omega (arith, c.1 i (ground arith), b))
        | inr after ↦ ground arith
      ]

      inside' :
          i < graph.size
          → (graph.at i).source ≡ node
          → i < (nodes.at node).first_edge + (nodes.at node).edges
      inside' a b = elim (Bool-cases (ltb i next)) [
        | inl before ↦ ground arith
        | inr after ↦ absurd (omega (arith, c'.2 i (ground arith) a, b))
      ]

  Filled-step :
      (n : ℕ) (graph : Vector (InputEdge D)) (node edge next : ℕ) (nodes nodes' : Vector Node)
      (finish : ℕ)
      → IsCut graph node edge
      → Run graph node edge next
      → IsCut graph (node + 1) next
      → Filled graph n
          (node + 1)
          next
          (write nodes node (record { first_edge = edge; edges = next - edge }))
          nodes'
          finish
      → Filled graph (suc n) node edge nodes nodes' finish
  Filled-step n graph node edge next nodes nodes' finish c r c' f =
      let here = f.before node (omega arith) in
      let first : (nodes'.at node).first_edge ≡ edge = ground (arith, here) in
      let count : (nodes'.at node).edges ≡ next - edge = ground (arith, here) in
      let sum : edge + (nodes'.at node).edges ≡ next = omega (arith, r.forward, count) in
      record {
        cut =
            (f.cut.0, (λ k q. omega (arith, f.cut.1 k q)), (λ k a b. omega (arith, f.cut.2 k a b)));
        chain = (first, rw sum f.chain);
        owns = λ m a b. elim (Bool-cases (node == m)) [
          | inl this ↦
              let e : node ≡ m = ground arith in
              subst (OwnsSource graph nodes') e
                (owns-Run graph node edge next nodes' c r c' first count)
          | inr other ↦ f.owns m (ground arith) (omega arith)
        ];
        before = λ m q. ground (arith, f.before m (omega arith));
        behind = λ m q. ground (arith, f.behind m (omega arith));
        size = f.size;
      }

  pub fill_nodes-Filled :
      (n : ℕ) (graph : Vector (InputEdge D)) (node edge : ℕ) (nodes : Vector Node)
      → IsSorted graph
      → IsCut graph node edge
      → Filled graph n node edge nodes
          (fill_nodes n graph node edge edge nodes).0
          (fill_nodes n graph node edge edge nodes).1
  unfolding fill_nodes
  fill_nodes-Filled zero graph node edge nodes sorted c = record {
    cut = (c.0, (λ k q. omega (arith, c.1 k q)), (λ k a b. omega (arith, c.2 k a b)));
    chain = refl;
    owns = λ m a b. absurd (omega arith);
    before = λ m q. refl;
    behind = λ m q. refl;
    size = refl;
  }
  fill_nodes-Filled (suc n) graph node edge nodes sorted c =
      let next = run_end (graph.size - edge) graph node edge in
      let r = run_end-Run (graph.size - edge) graph node edge (omega arith) in
      let sum : edge + (next - edge) ≡ next = omega (arith, r.forward) in
      let here : Node = record { first_edge = edge; edges = next - edge } in
      let nodes' = write nodes node here in
      let c' = IsCut-next graph node edge next sorted c r in
      let f = fill_nodes-Filled n graph (node + 1) next nodes' sorted c' in
      rw (sum, fill_nodes)
        (Filled-step n graph node edge next nodes (fill_nodes n graph (node + 1) next next nodes').0
          (fill_nodes n graph (node + 1) next next nodes').1 c r c' f)
