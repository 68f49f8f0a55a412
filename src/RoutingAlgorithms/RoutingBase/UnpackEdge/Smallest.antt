-- ===== src/RoutingAlgorithms/RoutingBase/UnpackEdge/Smallest.antt =====
-- osrm-backend/routing_algorithms/routing_base.hpp: the edge that UnpackEdge takes for a pair of nodes.
use mathlib.Core.Path.{subst}
use maiden.Typedefs.{special_edgeid, invalid_edge_weight}
use maiden.Prelude.{
  ℕ, ◌≤◌, ◌<◌, ◌≡◌, ◌≢◌, ◌⊎◌, refl, sym, ap, ◌∙◌, Bool, true, false, ◌&&◌, List, [], ◌∷◌, ltb, ◌==◌,
  arith, Bool-cases, inl, inr,
}
use maiden.RoutingAlgorithms.RoutingBase.{Facade, flag}
use maiden.RoutingAlgorithms.RoutingBase.Labels.{Has}
use maiden.RoutingAlgorithms.RoutingBase.UnpackEdge.{Candidate, smaller_edge, edge_between}

module _ (g : Facade) where
  -- An edge that the loop may take.
  abbrev pub Matches : Bool → ℕ → List ℕ → ℕ → Type 0
  Matches d to es e = Has e es × (g.target e ≡ to) × (flag g d e ≡ true)

  -- The outcome of a loop over edges that starts with a candidate.
  pub record IsSmallest (d : Bool) (to : ℕ) (es : List ℕ) (c r : Candidate) : Type 0 where
    pub no_worse : r.edge_weight ≤ c.edge_weight
    pub least : (e : ℕ) → Matches d to es e → r.edge_weight ≤ g.distance e
    pub source :
        (r ≡ c)
        ⊎ (Matches d to es r.smaller_edge_id × (r.edge_weight ≡ g.distance r.smaller_edge_id))

  keep_source :
      (d : Bool) (to x : ℕ) (es : List ℕ) (r : Candidate)
      → (Matches d to es r.smaller_edge_id × (r.edge_weight ≡ g.distance r.smaller_edge_id))
      → Matches d to (x ∷ es) r.smaller_edge_id × (r.edge_weight ≡ g.distance r.smaller_edge_id)
  keep_source d to x es r (m, w) = ((inr m.0, m.1, m.2), w)

  -- One more edge in front, which becomes the candidate or does not.
  taken-IsSmallest :
      (d : Bool) (to x : ℕ) (es : List ℕ) (c r : Candidate)
      → Matches d to (x ∷ es) x
      → g.distance x < c.edge_weight
      → IsSmallest d to es (record { smaller_edge_id = x; edge_weight = g.distance x }) r
      → IsSmallest d to (x ∷ es) c r
  taken-IsSmallest d to x es c r m lt s = record {
    no_worse = omega (arith, s.no_worse);
    least = λ e n. elim n.0 [
      | inl here ↦ ground (arith, ap g.distance here, s.no_worse)
      | inr there ↦ s.least e (there, n.1, n.2)
    ];
    source = inr (elim s.source [
      | inl kept ↦
          let at : r.smaller_edge_id ≡ x = ap (λ k. k.smaller_edge_id) kept in
          (
            subst (Matches d to (x ∷ es)) (sym at) m,
            ap (λ k. k.edge_weight) kept ∙ ap g.distance (sym at),
          )
      | inr found ↦ keep_source d to x es r found
    ]);
  }

  left-IsSmallest :
      (d : Bool) (to x : ℕ) (es : List ℕ) (c r : Candidate)
      → ((g.target x == to) && ltb (g.distance x) c.edge_weight && flag g d x) ≡ false
      → IsSmallest d to es c r
      → IsSmallest d to (x ∷ es) c r
  left-IsSmallest d to x es c r worse s = record {
    no_worse = s.no_worse;
    least = λ e n. elim n.0 [
      | inl here ↦
          let m : (g.target x ≡ to) × (flag g d x ≡ true) × (g.distance x ≡ g.distance e) = (
            ap g.target (sym here) ∙ n.1,
            ap (flag g d) (sym here) ∙ n.2,
            ap g.distance (sym here),
          ) in
          ground (arith, s.no_worse, m)
      | inr there ↦ s.least e (there, n.1, n.2)
    ];
    source = elim s.source [
      | inl kept ↦ inl kept
      | inr found ↦ inr (keep_source d to x es r found)
    ];
  }

  pub smaller_edge-IsSmallest :
      (d : Bool) (to : ℕ) (es : List ℕ) (c : Candidate)
      → IsSmallest d to es c (smaller_edge g d to es c)
  unfolding smaller_edge
  smaller_edge-IsSmallest d to [] c = record {
    no_worse = omega arith;
    least = λ e m. absurd m.0;
    source = inl refl;
  }
  smaller_edge-IsSmallest d to (x ∷ es) c =
      elim (Bool-cases ((g.target x == to) && ltb (g.distance x) c.edge_weight && flag g d x)) [
        | inl better ↦
            let c' : Candidate = record { smaller_edge_id = x; edge_weight = g.distance x } in
            rw better (
              taken-IsSmallest d to x es c (smaller_edge g d to es c')
                (inl refl, ground arith, ground arith) (ground arith)
                (smaller_edge-IsSmallest d to es c'))
        | inr worse ↦ rw worse (
            left-IsSmallest d to x es c (smaller_edge g d to es c) worse
              (smaller_edge-IsSmallest d to es c))
      ]

  -- Where a node has a forward edge to another, shorter than the invalid weight, and no edge with the
  -- special id, UnpackEdge takes for the pair one of these edges that is no longer than any of them.
  pub edge_between-least :
      (from to e : ℕ)
      → Matches true to (g.adjacent from) e
      → g.distance e < invalid_edge_weight
      → ((x : ℕ) → Has x (g.adjacent from) → x ≢ special_edgeid)
      → Matches true to (g.adjacent from) (edge_between g from to)
        × ((x : ℕ)
            → Matches true to (g.adjacent from) x
            → g.distance (edge_between g from to) ≤ g.distance x)
  unfolding edge_between
  edge_between-least from to e m valid ids =
      let c0 : Candidate = record {
        smaller_edge_id = special_edgeid;
        edge_weight = invalid_edge_weight;
      } in
      let r = smaller_edge g true to (g.adjacent from) c0 in
      let s = smaller_edge-IsSmallest true to (g.adjacent from) c0 in
      elim s.source [
        | inl kept ↦ absurd (omega (arith, s.least e m, ap (λ k. k.edge_weight) kept))
        | inr (n, w) ↦
            let apart : (special_edgeid == r.smaller_edge_id) ≡ false =
              ground (arith, ids r.smaller_edge_id n.0) in
            rw apart (n, λ x k. omega (arith, s.least x k, w))
      ]
