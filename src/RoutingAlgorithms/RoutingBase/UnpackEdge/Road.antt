-- ===== src/RoutingAlgorithms/RoutingBase/UnpackEdge/Road.antt =====
-- osrm-backend/routing_algorithms/routing_base.hpp: the road that UnpackEdge writes.
use maiden.Typedefs.{special_edgeid, invalid_edge_weight}
use maiden.Prelude.{
  ℕ, zero, suc, ◌+◌, ◌≤◌, ◌<◌, ◌≡◌, ◌⊎◌, refl, ap, true, false, List, [], ◌∷◌, ◌++◌, ◌==◌, arith,
  Bool-cases, inl, inr, Option, some,
}
use maiden.RoutingAlgorithms.RoutingBase.{Facade}
use maiden.RoutingAlgorithms.RoutingBase.UnpackEdge.{
  Candidate, smaller_edge, edge_between, unpack_loop, unpack_edge,
}
use maiden.RoutingAlgorithms.RoutingBase.UnpackEdge.Smallest.{Matches, smaller_edge-IsSmallest}

module _ (g : Facade) where
  -- An edge of the graph between two nodes: a forward one of the first, or a backward one of the second.
  abbrev pub IsEdge : ℕ → ℕ → ℕ → Type 0
  IsEdge a b e = Matches g true b (g.adjacent a) e ⊎ Matches g false a (g.adjacent b) e

  -- UnpackEdge finds an edge for the pair.
  abbrev pub IsLinked : ℕ → ℕ → Type 0
  IsLinked a b = (special_edgeid == edge_between g a b) ≡ false

  edge_between-IsEdge : (a b : ℕ) → IsLinked a b → IsEdge a b (edge_between g a b)
  unfolding edge_between
  edge_between-IsEdge a b linked =
      let c0 : Candidate = record {
        smaller_edge_id = special_edgeid;
        edge_weight = invalid_edge_weight;
      } in
      let c = smaller_edge g true b (g.adjacent a) c0 in
      let s = smaller_edge-IsSmallest g true b (g.adjacent a) c0 in
      let s' = smaller_edge-IsSmallest g false a (g.adjacent b) c in
      elim (Bool-cases (special_edgeid == c.smaller_edge_id)) [
        | inl missing ↦ rw missing (elim s'.source [
          | inl kept ↦
              let same = ap (λ k. k.smaller_edge_id) kept in
              let apart : (special_edgeid
                    == (smaller_edge g false a (g.adjacent b) c).smaller_edge_id)
                  ≡ false =
                simp missing at linked in
              absurd (ground (arith, same))
          | inr found ↦ inr found.0
        ])
        | inr found ↦ rw found (elim s.source [
          | inl kept ↦ let same = ap (λ k. k.smaller_edge_id) kept in absurd (ground (arith, same))
          | inr n ↦ inl n.0
        ])
      ]

  -- Original edges of the graph one after the other, with the sum of their weights.
  unfoldable pub IsRoad : ℕ → List ℕ → ℕ → ℕ → Type 0
  IsRoad from [] to w = (from ≡ to) × (w ≡ 0)
  IsRoad from (x ∷ xs) to w =
      (from ≡ x)
      × (next : ℕ) × (e : ℕ) × (v : ℕ) × IsEdge x next e
      × (g.shortcut e ≡ false)
      × (w ≡ g.distance e + v)
      × IsRoad next xs to v

  -- The halves of a shortcut exist and are as long as it is, and the nesting of the halves ends.
  pub record IsHierarchy (depth : ℕ → ℕ → ℕ) : Type 0 where
    pub some_depth : (a b : ℕ) → 0 < depth a b
    pub linked :
        (a b : ℕ)
        → IsLinked a b
        → g.shortcut (edge_between g a b) ≡ true
        → IsLinked a (g.id (edge_between g a b)) × IsLinked (g.id (edge_between g a b)) b
    pub halves :
        (a b : ℕ)
        → IsLinked a b
        → g.shortcut (edge_between g a b) ≡ true
        → depth a (g.id (edge_between g a b)) + depth (g.id (edge_between g a b)) b < depth a b
    pub weight :
        (a b : ℕ)
        → IsLinked a b
        → g.shortcut (edge_between g a b) ≡ true
        → g.distance (edge_between g a b)
          ≡ g.distance (edge_between g a (g.id (edge_between g a b)))
            + g.distance (edge_between g (g.id (edge_between g a b)) b)

  -- Linked pairs that lead from one to the next, their weight and their depth.
  IsStack : ℕ → List (ℕ × ℕ) → ℕ → ℕ → Type 0
  IsStack from [] to w = (from ≡ to) × (w ≡ 0)
  IsStack from ((a, b) ∷ stack) to w =
      (from ≡ a)
      × IsLinked a b
      × (v : ℕ) × (w ≡ g.distance (edge_between g a b) + v)
      × IsStack b stack to v

  cost : (ℕ → ℕ → ℕ) → List (ℕ × ℕ) → ℕ
  cost depth [] = 0
  cost depth ((a, b) ∷ stack) = depth a b + cost depth stack

  -- The result of the loop.
  abbrev Unpacked : ℕ → ℕ → ℕ → Option (List ℕ) → Type 0
  Unpacked from to w r = (nodes : List ℕ) × (r ≡ some nodes) × IsRoad from nodes to w

  module _ (depth : ℕ → ℕ → ℕ) (h : IsHierarchy depth) where
    unpack_loop-IsRoad :
        (fuel from to w : ℕ) (stack : List (ℕ × ℕ))
        → IsStack from stack to w
        → cost depth stack ≤ fuel
        → Unpacked from to w (unpack_loop g fuel stack)
    unfolding IsStack cost IsRoad unpack_loop
    unpack_loop-IsRoad zero from to w [] c enough = ([], refl, c)
    unpack_loop-IsRoad (suc fuel) from to w [] c enough = ([], refl, c)
    unpack_loop-IsRoad zero from to w ((a, b) ∷ stack) c enough =
        absurd (omega (arith, h.some_depth a b))
    unpack_loop-IsRoad (suc fuel) from to w ((a, b) ∷ stack) (at, link, v, eq, c) enough =
        let e = edge_between g a b in
        let m = g.id e in
        elim (Bool-cases (g.shortcut e)) [
          | inr original ↦
              let (nodes, done, road) =
                unpack_loop-IsRoad fuel b to v stack c (omega (arith, h.some_depth a b)) in
              (
                a ∷ nodes,
                (rw (link, original, done) refl),
                (at, b, e, v, edge_between-IsEdge a b link, original, eq, road),
              )
          | inl short ↦
              let links = h.linked a b link short in
              rw (link, short)
                (unpack_loop-IsRoad fuel from to w ((a, m) ∷ (m, b) ∷ stack)
                  (
                    at,
                    links.0,
                    g.distance (edge_between g m b) + v,
                    omega (arith, h.weight a b link short),
                    (refl, links.1, v, refl, c),
                  )
                  (omega (arith, h.halves a b link short)))
        ]

    -- Where UnpackEdge finds an edge for a pair of nodes, the halves of each shortcut exist and are as
    -- long as it is, and the nesting of the halves has a depth, UnpackEdge ends with fuel for the depth of
    -- the pair without failing its assertion. It gives the nodes of a road of original edges of the graph
    -- from the one node to the other, whose weights add up to that of the edge it found for the pair.
    pub unpack_edge-IsRoad :
        (fuel s t : ℕ)
        → IsLinked s t
        → depth s t ≤ fuel
        → (nodes : List ℕ) × (unpack_edge g fuel s t ≡ some (nodes ++ (t ∷ [])))
          × IsRoad s nodes t (g.distance (edge_between g s t))
    unfolding unpack_edge cost IsStack
    unpack_edge-IsRoad fuel s t link enough =
        let (nodes, done, road) =
          unpack_loop-IsRoad fuel s t (g.distance (edge_between g s t)) ((s, t) ∷ [])
            (refl, link, 0, omega arith, (refl, refl)) (omega arith) in
        (nodes, rw done refl, road)
