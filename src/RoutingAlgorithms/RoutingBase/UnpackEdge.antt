-- ===== src/RoutingAlgorithms/RoutingBase/UnpackEdge.antt =====
-- osrm-backend/routing_algorithms/routing_base.hpp: UnpackEdge, which replaces a shortcut by the edges
-- that it stands for.
pub mod Smallest
pub mod Road
use mathlib.Core.Option.{map as option_map}
use mathlib.Core.Path.{subst}
use maiden.Typedefs.{special_edgeid, invalid_edge_weight}
use maiden.Prelude.{
  ℕ, zero, suc, ◌+◌, ◌≤◌, ◌<◌, ◌≡◌, ◌≢◌, ◌⊎◌, refl, sym, ap, ◌∙◌, Bool, true, false, ◌&&◌, List, [],
  Option, none, some, ◌∷◌, ◌++◌, ltb, ◌==◌, if◌then◌else◌, arith, Bool-cases, inl, inr,
}
use maiden.RoutingAlgorithms.RoutingBase.{Facade, flag}
use maiden.RoutingAlgorithms.RoutingBase.Labels.{Has}

-- The best edge so far.
pub record Candidate : Type 0 where
  pub smaller_edge_id : ℕ
  pub edge_weight : ℕ

module _ (g : Facade) where
  -- The loops over the edges of a node.
  unfoldable pub smaller_edge : Bool → ℕ → List ℕ → Candidate → Candidate
  smaller_edge forward_direction to [] c = c
  smaller_edge forward_direction to (e ∷ es) c =
      let better =
        (g.target e == to) && ltb (g.distance e) c.edge_weight && flag g forward_direction e in
      smaller_edge forward_direction to es
        (if better then record { smaller_edge_id = e; edge_weight = g.distance e } else c)

  -- The edge that UnpackEdge takes for a pair of nodes.
  unfoldable pub edge_between : ℕ → ℕ → ℕ
  unfolding smaller_edge
  edge_between from to =
      let c =
        smaller_edge true to (g.adjacent from)
          (record { smaller_edge_id = special_edgeid; edge_weight = invalid_edge_weight }) in
      if special_edgeid == c.smaller_edge_id
      then (smaller_edge false from (g.adjacent to) c).smaller_edge_id
      else c.smaller_edge_id

  -- The loop over the stack, on fuel: the nodes that it appends. `none` where the assertion on the edge
  -- weight fails, since no edge was found, and where the fuel does not last.
  unfoldable pub unpack_loop : ℕ → List (ℕ × ℕ) → Option (List ℕ)
  unpack_loop zero [] = some []
  unpack_loop zero (pair ∷ stack) = none
  unpack_loop (suc fuel) [] = some []
  unpack_loop (suc fuel) ((from, to) ∷ stack) =
      let e = edge_between from to in
      let halves = unpack_loop fuel ((from, g.id e) ∷ (g.id e, to) ∷ stack) in
      let rest = option_map (λ nodes. from ∷ nodes) (unpack_loop fuel stack) in
      if special_edgeid == e then none else if g.shortcut e then halves else rest

  unfoldable pub unpack_edge : ℕ → ℕ → ℕ → Option (List ℕ)
  unfolding unpack_loop
  unpack_edge fuel s t = option_map (λ nodes. nodes ++ (t ∷ [])) (unpack_loop fuel ((s, t) ∷ []))
