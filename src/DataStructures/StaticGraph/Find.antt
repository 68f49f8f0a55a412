-- ===== src/DataStructures/StaticGraph/Find.antt =====
-- osrm-backend/data_structures/static_graph.hpp: what the searches for an edge find.
use mathlib.Core.Path.{subst}
use maiden.Typedefs.{special_nodeid, special_edgeid}
use maiden.Prelude.{
  ℕ, zero, suc, ◌+◌, ◌-◌, ◌^◌, ◌≤◌, ◌<◌, ◌≡◌, ◌≢◌, ◌⊎◌, refl, sym, ap, ◌∙◌, Bool, true, false,
  Vector, ltb, ◌==◌, arith, Bool-cases, inl, inr,
}
use maiden.DataStructures.StaticGraph.{
  InputEdge, StaticGraph, find_edge_loop, find_edge, find_edge_indicate_if_reverse, begin_edges,
  end_edges, get_target,
}
use maiden.DataStructures.StaticGraph.Build.{suc_eq, IsSorted, IsCut, IsCut-next, IsStored}

module _ {ℓ} {D : Type ℓ} where
  find_edge_loop-first :
      (count : ℕ) (g : StaticGraph D) (to i : ℕ)
      → let r = find_edge_loop count g to i in
        ((r ≡ special_edgeid) × ((e : ℕ) → i ≤ e → e < i + count → get_target g e ≢ to))
        ⊎ ((i ≤ r)
            × (r < i + count)
            × (get_target g r ≡ to)
            × ((e : ℕ) → i ≤ e → e < r → get_target g e ≢ to))
  unfolding find_edge_loop
  find_edge_loop-first zero g to i = inl (refl, λ e le lt. absurd (omega arith))
  find_edge_loop-first (suc count) g to i = elim (Bool-cases (to == get_target g i)) [
    | inl here ↦
        rw here (inr (omega arith, omega arith, ground arith, λ e le lt. absurd (omega arith)))
    | inr apart ↦
        let other : get_target g i ≢ to = λ same. absurd (ground arith) in
        let first : (e : ℕ) → e ≡ i → get_target g e ≢ to =
          λ e at. subst (λ x. get_target g x ≢ to) (sym at) other in
        rw apart (elim (find_edge_loop-first count g to (i + 1)) [
          | inl (none_found, rest) ↦ inl (
            none_found,
            λ e le lt. elim (Bool-cases (e == i)) [
              | inl now ↦ first e (ground arith)
              | inr later ↦ rest e (ground arith) (omega arith)
            ],
          )
          | inr (le, lt, at, rest) ↦ inr (
            omega arith,
            omega arith,
            at,
            λ e le' lt'. elim (Bool-cases (e == i)) [
              | inl now ↦ first e (ground arith)
              | inr later ↦ rest e (ground arith) lt'
            ],
          )
        ])
  ]

  -- An edge of the input that leads from one node to another.
  abbrev pub Joins : Vector (InputEdge D) → ℕ → ℕ → ℕ → Type 0
  Joins graph from to e =
      (e < graph.size) × ((graph.at e).source ≡ from) × ((graph.at e).target ≡ to)

  module _ (graph : Vector (InputEdge D)) (sorted : IsSorted graph) (nodes : ℕ) (g : StaticGraph D)
      (stored : IsStored graph nodes g) where
    -- The edges of a node are those between its cuts.
    pub own_edge :
        (from e : ℕ)
        → from < nodes
        → e < graph.size
        → (graph.at e).source ≡ from
        → (begin_edges g from ≤ e) × (e < end_edges g from)
    own_edge from e lt inside at =
        let low = stored.begin from (omega arith) in
        let high = stored.begin (from + 1) (omega arith) in
        (
          elim (Bool-cases (ltb e (begin_edges g from))) [
            | inl below ↦ absurd (omega (arith, low.below e (ground arith)))
            | inr above ↦ ground arith
          ],
          elim (Bool-cases (ltb e (end_edges g from))) [
            | inl below ↦ ground arith
            | inr above ↦ absurd (omega (arith, high.above e (ground arith) inside))
          ],
        )

    pub between :
        (from e : ℕ)
        → from < nodes
        → begin_edges g from ≤ e
        → e < end_edges g from
        → (e < graph.size) × ((graph.at e).source ≡ from)
    between from e lt le le' =
        let low = stored.begin from (omega arith) in
        let high = stored.begin (from + 1) (omega arith) in
        let inside : e < graph.size = omega (arith, high.inside) in
        (inside, omega (arith, low.above e le inside, high.below e le'))

    pub target_of : (e : ℕ) → e < graph.size → get_target g e ≡ (graph.at e).target
    target_of e lt = ap (λ x. x.target) (stored.edges e lt)

    pub ordered :
        (from : ℕ)
        → from < nodes
        → begin_edges g from + (end_edges g from - begin_edges g from) ≡ end_edges g from
    ordered from lt =
        let high =
          subst (λ v. IsCut graph v (end_edges g from)) (suc_eq from)
            (stored.begin (from + 1) (omega arith)) in
        omega (
          arith,
          IsCut-next graph sorted from (begin_edges g from) (end_edges g from)
              (stored.begin from (omega arith)) high,
        )

    -- In a graph that stores sorted edges, FindEdge from a node gives the first edge to the other node, or
    -- the special id if there is none.
    find_edge-first :
        (from to : ℕ)
        → from < nodes
        → let r = find_edge g from to in
          ((r ≡ special_edgeid) × ((e : ℕ) → Joins graph from to e → ⊥))
          ⊎ (Joins graph from to r × ((e : ℕ) → Joins graph from to e → r ≤ e))
    unfolding find_edge
    find_edge-first from to lt =
        let r = find_edge g from to in
        let o = ordered from lt in
        elim (find_edge_loop-first (end_edges g from - begin_edges g from) g to
          (begin_edges g from)) [
            | inl (none_found, rest) ↦ inl (
              none_found,
              λ e (inside, source, target).
                  let (le, le') = own_edge from e lt inside source in
                  rest e le (omega (arith, o)) (target_of e inside ∙ target),
            )
            | inr (le, le', at, rest) ↦
                let (inside, source) = between from r lt le (omega (arith, o)) in
                inr (
                  (inside, source, sym (target_of r inside) ∙ at),
                  λ e (within, from', to'). elim (Bool-cases (ltb e r)) [
                    | inl less ↦ absurd (
                        rest e (own_edge from e lt within from').0 (ground arith)
                          (target_of e within ∙ to'))
                    | inr later ↦ ground arith
                  ],
                )
          ]

    -- In a graph that stores fewer than 2^32 sorted edges, FindEdgeIndicateIfReverse gives an edge from the
    -- one node to the other and leaves its result; if there is none, one of the other direction and sets
    -- the result; and if there is none either, the special id and leaves the result.
    pub find_edge_indicate_if_reverse-cases :
        graph.size < 2 ^ 32
        → (from to : ℕ) → from < nodes
        → to < nodes
        → (result : Bool)
        → let r = find_edge_indicate_if_reverse g from to result in
          (Joins graph from to r.0 × (r.1 ≡ result))
          ⊎ (((e : ℕ) → Joins graph from to e → ⊥) × Joins graph to from r.0 × (r.1 ≡ true))
          ⊎ (((e : ℕ) → Joins graph from to e → ⊥)
              × ((e : ℕ) → Joins graph to from e → ⊥)
              × (r.0 ≡ special_edgeid)
              × (r.1 ≡ result))
    unfolding find_edge_indicate_if_reverse
    find_edge_indicate_if_reverse-cases fits from to lt lt' result =
        let r = find_edge g from to in
        let s = find_edge g to from in
        elim (find_edge-first from to lt) [
          | inr (joins, least) ↦
              let known : (special_nodeid == r) ≡ false = ground (arith, joins) in
              rw known (inl (joins, refl))
          | inl (none_found, absent) ↦
              let unknown : (special_nodeid == r) ≡ true = ground arith in
              elim (find_edge-first to from lt') [
                | inr (joins, least) ↦
                    let known : (special_nodeid == s) ≡ false = ground (arith, joins) in
                    rw (unknown, known) (inr (inl (absent, joins, refl)))
                | inl (none_back, absent') ↦
                    let unknown' : (special_nodeid == s) ≡ true = ground arith in
                    rw (unknown, unknown') (inr (inr (absent, absent', none_back, refl)))
              ]
        ]
