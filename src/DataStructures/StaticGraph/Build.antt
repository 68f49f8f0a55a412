-- ===== src/DataStructures/StaticGraph/Build.antt =====
-- osrm-backend/data_structures/static_graph.hpp: the constructor from sorted edges.
use mathlib.Core.Path.{subst}
use native.Mathlib.Nat.{mod-eq_of_lt}
use maiden.Prelude.{
  ◌∙◌, ℕ, zero, suc, ◌+◌, ◌-◌, ◌%◌, ◌^◌, ◌≤◌, ◌<◌, ◌≡◌, refl, sym, ap, true, ◌&&◌, Vector, write,
  resize, ltb, ◌==◌, arith, Bool-cases, inl, inr,
}
use maiden.DataStructures.StaticGraph.{
  InputEdge, EdgeArrayEntry, StaticGraph, Counted, skip_edges, count_edges, copy_edges, place_edges,
  new_static_graph, begin_edges,
}

pub suc_eq : (k : ℕ) → k + 1 ≡ suc k
suc_eq k = omega arith

module _ {ℓ} {D : Type ℓ} (graph : Vector (InputEdge D)) where
  -- The edges are in the order of their sources.
  unfoldable pub IsSorted : Type 0
  IsSorted = (i j : ℕ) → i ≤ j → j < graph.size → (graph.at i).source ≤ (graph.at j).source

  -- How many edges have a source below a node.
  pub record IsCut (node x : ℕ) : Type 0 where
    pub inside : x ≤ graph.size
    pub below : (e : ℕ) → e < x → (graph.at e).source < node
    pub above : (e : ℕ) → x ≤ e → e < graph.size → node ≤ (graph.at e).source

  module _ (sorted : IsSorted) where
    grown :
        (node edge : ℕ)
        → ((e : ℕ) → e < edge → (graph.at e).source ≤ node)
        → ltb edge graph.size && ((graph.at edge).source == node) ≡ true
        → (e : ℕ) → e < edge + 1
        → (graph.at e).source ≤ node
    grown node edge below more e lt = elim (Bool-cases (edge == e)) [
      | inl now ↦
          let at : edge ≡ e = ground arith in ground (arith, ap (λ x. (graph.at x).source) at)
      | inr before ↦ below e (ground arith)
    ]

    skip_edges-IsCut :
        (fuel node edge : ℕ)
        → graph.size ≤ edge + fuel
        → edge ≤ graph.size
        → ((e : ℕ) → e < edge → (graph.at e).source ≤ node)
        → ((e : ℕ) → edge ≤ e → e < graph.size → node ≤ (graph.at e).source)
        → IsCut (suc node) (skip_edges fuel graph graph.size node edge)
          × (edge ≤ skip_edges fuel graph graph.size node edge)
    unfolding skip_edges IsSorted
    skip_edges-IsCut zero node edge enough inside below above = (
      record {
        inside = inside;
        below = λ e lt. omega (arith, below e lt);
        above = λ e le lt. absurd (omega arith);
      },
      omega arith,
    )
    skip_edges-IsCut (suc fuel) node edge enough inside below above =
        elim (Bool-cases (ltb edge graph.size && ((graph.at edge).source == node))) [
          | inl more ↦
              let r =
                skip_edges-IsCut fuel node (edge + 1) (omega arith) (ground arith)
                  (λ e lt. grown node edge below more e lt) (λ e le lt. above e (omega arith) lt) in
              rw more (r.0, omega (arith, r.1))
          | inr done ↦ rw done (
            record {
              inside = inside;
              below = λ e lt. omega (arith, below e lt);
              above = λ e le lt. ground (arith, sorted edge e le lt, above edge);
            },
            omega arith,
          )
        ]

    -- After the first nodes, the arrays have the cuts of these.
    record IsCounted (k : ℕ) (c : Counted) : Type 0 where
      level : c.position ≡ c.edge
      cut : IsCut k c.edge
      cuts : (v : ℕ) → v < k → IsCut v (c.node_array.at v)

    count_edges-IsCounted :
        (raw : Vector ℕ) (k : ℕ)
        → graph.size < 2 ^ 32
        → IsCounted k (count_edges graph graph.size raw k)
    unfolding count_edges
    count_edges-IsCounted raw zero fits = record {
      level = refl;
      cut = record {
        inside = omega arith;
        below = λ e lt. absurd (omega arith);
        above = λ e le lt. omega arith;
      };
      cuts = λ v lt. absurd (omega arith);
    }
    count_edges-IsCounted raw (suc k) fits =
        let c = count_edges graph graph.size raw k in
        let h = count_edges-IsCounted raw k fits in
        let (cut, le) =
          skip_edges-IsCut graph.size k c.edge (omega arith) h.cut.inside
            (λ e lt. omega (arith, h.cut.below e lt)) h.cut.above in
        record {
          level = ground (arith, h.level, cut.inside, fits, le);
          cut = cut;
          cuts = λ v lt. elim (Bool-cases (k == v)) [
            | inl now ↦
                let at : k ≡ v = ground arith in
                rw now (subst (λ x. IsCut x c.position) at (subst (IsCut k) (sym h.level) h.cut))
            | inr before ↦ rw before (h.cuts v (ground arith))
          ];
        }

    pub IsCut-next : (v x y : ℕ) → IsCut v x → IsCut (suc v) y → x ≤ y
    IsCut-next v x y p q = elim (Bool-cases (ltb y x)) [
      | inl less ↦
          let lt : y < x = ground arith in
          absurd (
            omega
              (arith, p.inside, p.below y lt, q.above y (omega arith) (omega (arith, p.inside))))
      | inr ordered ↦ ground arith
    ]

    IsCut-zero : (x : ℕ) → IsCut 0 x → x ≡ 0
    IsCut-zero x p = elim (Bool-cases (ltb 0 x)) [
      | inl some_below ↦ absurd (omega (arith, p.below 0 (ground arith)))
      | inr empty ↦ ground arith
    ]

    IsCut-end :
        (n x : ℕ)
        → ((e : ℕ) → e < graph.size → (graph.at e).source < n)
        → IsCut n x
        → x ≡ graph.size
    IsCut-end n x sources p = elim (Bool-cases (ltb x graph.size)) [
      | inl less ↦
          let lt : x < graph.size = ground arith in
          absurd (omega (arith, p.above x (omega arith) lt, sources x lt))
      | inr all ↦ ground (arith, p.inside)
    ]

  abbrev pub entry : ℕ → EdgeArrayEntry D
  entry e = record { target = (graph.at e).target; edge_data = (graph.at e).edge_data }

  -- The slots below an index hold the edges.
  IsCopied : ℕ → Vector (EdgeArrayEntry D) → Type ℓ
  IsCopied i edge_array = (e : ℕ) → e < i → edge_array.at e ≡ entry e

  copy_edges-IsCopied :
      (count i : ℕ) (edge_array : Vector (EdgeArrayEntry D))
      → IsCopied i edge_array
      → IsCopied (i + count) (copy_edges count graph i i edge_array)
  unfolding copy_edges IsCopied
  copy_edges-IsCopied zero i edge_array h e lt = h e (omega arith)
  copy_edges-IsCopied (suc count) i edge_array h e lt =
      let next = write edge_array i (entry i) in
      copy_edges-IsCopied count (i + 1) next
        (λ x q. elim (Bool-cases (i == x)) [
          | inl now ↦ let at : i ≡ x = ground arith in rw now (ap entry at)
          | inr before ↦ rw before (h x (ground arith))
        ])
        e (omega arith)

  count_edges-size :
      (number_of_edges : ℕ) (raw : Vector ℕ) (k : ℕ)
      → (count_edges graph number_of_edges raw k).node_array.size ≡ raw.size
  unfolding count_edges
  count_edges-size number_of_edges raw zero = refl
  count_edges-size number_of_edges raw (suc k) = count_edges-size number_of_edges raw k

  copy_edges-size :
      (count i edge : ℕ) (edge_array : Vector (EdgeArrayEntry D))
      → (copy_edges count graph i edge edge_array).size ≡ edge_array.size
  unfolding copy_edges
  copy_edges-size zero i edge edge_array = refl
  copy_edges-size (suc count) i edge edge_array =
      copy_edges-size count (i + 1) (edge + 1) (write edge_array i (entry edge))

  place_edges-size :
      (node_array : Vector ℕ) (raw : Vector (EdgeArrayEntry D)) (k : ℕ)
      → (place_edges graph node_array raw k).1.size ≡ raw.size
  unfolding place_edges
  place_edges-size node_array raw zero = refl
  place_edges-size node_array raw (suc k) =
      let r = place_edges graph node_array raw k in
      copy_edges-size (node_array.at (k + 1) - node_array.at k) (node_array.at k) r.0 r.1
      ∙ place_edges-size node_array raw k

  -- What a graph stores: arrays of the sizes that its indices need, for each node the cuts
  -- around its edges, and the edges.
  pub record IsStored (nodes : ℕ) (g : StaticGraph D) : Type ℓ where
    pub size : g.number_of_edges ≡ graph.size
    pub node_size : g.node_array.size ≡ nodes + 1
    pub edge_size : g.edge_array.size ≡ graph.size
    pub begin : (v : ℕ) → v ≤ nodes → IsCut v (begin_edges g v)
    pub edges : (e : ℕ) → e < graph.size → g.edge_array.at e ≡ entry e

  module _ (sorted : IsSorted) (nodes : ℕ)
      (sources : (e : ℕ) → e < graph.size → (graph.at e).source < nodes) where
    place_edges-IsCopied :
        (node_array : Vector ℕ) (raw : Vector (EdgeArrayEntry D))
        → ((v : ℕ) → v ≤ nodes → IsCut v (node_array.at v))
        → (k : ℕ) → k ≤ nodes
        → ((place_edges graph node_array raw k).0 ≡ node_array.at k)
          × IsCopied (node_array.at k) (place_edges graph node_array raw k).1
    unfolding place_edges IsCopied
    place_edges-IsCopied node_array raw cuts zero le =
        let first = IsCut-zero sorted (node_array.at 0) (cuts 0 (omega arith)) in
        (sym first, λ e lt. absurd (omega arith))
    place_edges-IsCopied node_array raw cuts (suc k) le =
        let (at, copied) = place_edges-IsCopied node_array raw cuts k (omega arith) in
        let arr = (place_edges graph node_array raw k).1 in
        let here = node_array.at k in
        let next : node_array.at (k + 1) ≡ node_array.at (suc k) = ap node_array.at (suc_eq k) in
        let ordered =
          IsCut-next sorted k here (node_array.at (suc k)) (cuts k (omega arith))
            (cuts (suc k) le) in
        let count = node_array.at (k + 1) - here in
        let done = copy_edges-IsCopied count here arr copied in
        (omega (arith, at, next, ordered), λ e lt. rw at (done e (omega (arith, next, ordered))))

    -- From fewer than 2^32 edges in the order of their sources, which are nodes, the constructor makes a
    -- graph with an array of one first edge more than it has nodes and an array of as many slots as edges,
    -- in which the first edge of each node is the number of edges with a lower source, and which holds the
    -- target and the data of each edge at its place in that order.
    pub new_static_graph-IsStored :
        (raw_nodes : Vector ℕ) (raw_edges : Vector (EdgeArrayEntry D))
        → graph.size < 2 ^ 32
        → IsStored nodes (new_static_graph raw_nodes raw_edges nodes graph)
    unfolding new_static_graph IsCopied
    new_static_graph-IsStored raw_nodes raw_edges fits =
        let whole : graph.size % 2 ^ 32 ≡ graph.size = mod-eq_of_lt fits in
        let raw = resize raw_nodes (nodes + 1) in
        let c = count_edges graph graph.size raw (nodes + 1) in
        let h = count_edges-IsCounted sorted raw (nodes + 1) fits in
        let cuts : (v : ℕ) → v ≤ nodes → IsCut v (c.node_array.at v) =
          λ v le. h.cuts v (omega arith) in
        let p =
          place_edges-IsCopied c.node_array (resize raw_edges c.position) cuts nodes
            (omega arith) in
        let end =
          IsCut-end sorted nodes (c.node_array.at nodes) sources (cuts nodes (omega arith)) in
        let all = IsCut-end sorted (nodes + 1) c.edge (λ e lt. omega (arith, sources e lt)) h.cut in
        rw whole (record {
          size = refl;
          node_size = count_edges-size graph.size raw (nodes + 1);
          edge_size =
              place_edges-size c.node_array (resize raw_edges c.position) nodes ∙ h.level ∙ all;
          begin = cuts;
          edges = λ e lt. p.1 e (omega (arith, end));
        })
