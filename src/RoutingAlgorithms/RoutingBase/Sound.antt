-- ===== src/RoutingAlgorithms/RoutingBase/Sound.antt =====
-- osrm-backend/routing_algorithms/routing_base.hpp: what Search returns.
use mathlib.Core.List.{reverse}
use maiden.Typedefs.{special_nodeid, invalid_edge_weight}
use maiden.Prelude.{
  ℕ, suc, ◌+◌, ◌-◌, ◌*◌, ◌≤◌, ◌<◌, ◌≡◌, sym, true, false, ◌||◌, Option, some, List, ◌∷◌, ◌++◌, ◌==◌,
  arith, Bool-cases, inl, inr,
}
use maiden.RoutingAlgorithms.QueryHeap.{QueryHeap, Label}
use maiden.RoutingAlgorithms.RoutingBase.{
  Facade, Searches, search, retrieve_from_single_heap, retrieve_packed_path, int_offset,
}
use maiden.RoutingAlgorithms.RoutingBase.Labels.{IsPositive}
use maiden.RoutingAlgorithms.RoutingBase.Path.{IsClimb, IsClimb-least, retrieve-IsClimb}
use maiden.RoutingAlgorithms.RoutingBase.Search.{
  Begins, last, last-IsSearching, offset_of, offset-least,
}

-- No walk of the one search and walk of the other to the same node have a negative sum.
unfoldable pub IsNonNegative : Facade → (ℕ → Option ℕ) → (ℕ → Option ℕ) → Type 0
IsNonNegative g forward_start reverse_start =
    (n a b : ℕ) (pre post : List ℕ)
    → IsClimb g true forward_start n a pre
    → IsClimb g false reverse_start n b post
    → 2 * int_offset ≤ a + b

-- A packed path: the way from a forward start to a node, the node, and the way on to a reverse
-- start; the weights of both parts add up to the distance.
unfoldable pub IsPacked : Facade → (ℕ → Option ℕ) → (ℕ → Option ℕ) → ℕ → List ℕ → Type 0
IsPacked g forward_start reverse_start distance packed =
    (middle : ℕ) × (pre : List ℕ) × (post : List ℕ) × (a : ℕ) × (b : ℕ) × (packed
      ≡ reverse pre ++ (middle ∷ post))
    × IsClimb g true forward_start middle a pre
    × IsClimb g false reverse_start middle b post
    × (a + b ≡ distance + 2 * int_offset)

module _ (q : QueryHeap) (g : Facade) (nodes : ℕ) (forward_start reverse_start : ℕ → Option ℕ)
    (forward_heap reverse_heap : q.Heap) (f : Begins q forward_start nodes forward_heap)
    (r : Begins q reverse_start nodes reverse_heap) (pos : IsPositive g)
    (targets : (e : ℕ) → g.target e < nodes) (rounds : ℕ) (enough : 2 * nodes ≤ rounds) where
  open q use {label, size}

  abbrev s : Searches q g
  s =
      last q g nodes forward_start reverse_start forward_heap reverse_heap f r pos targets rounds
        enough

  abbrev w : ℕ
  w = offset_of q g nodes forward_start reverse_start forward_heap reverse_heap f r

  -- From heaps that hold the starts of the two searches and nothing else, on a graph whose edges have
  -- positive weights and lead to nodes, both heaps are empty after at most two rounds of the loop of
  -- Search for each node.
  pub search_loop-ends : (size s.forward_heap ≡ 0) × (size s.reverse_heap ≡ 0)
  search_loop-ends =
      let (a, b, c) =
        last-IsSearching q g nodes forward_start reverse_start forward_heap reverse_heap f r pos
          targets rounds enough in
      (b, c)

  module _ (reverse_least : (n k : ℕ) → reverse_start n ≡ some k → int_offset ≤ k)
      (non_negative : IsNonNegative g forward_start reverse_start) where
    -- If also no reverse start has a negative key and no walk of the one search and walk of the other
    -- to the same node have a negative sum, then after these rounds no node has labels in both heaps
    -- with a sum below the upper bound.
    pub search_loop-least :
        (n : ℕ) (l k : Label)
        → label s.forward_heap n ≡ some l
        → label s.reverse_heap n ≡ some k
        → s.meeting.upper_bound + 2 * int_offset ≤ l.weight + k.weight
    unfolding IsNonNegative
    search_loop-least n l k e e' =
        let (i, fs, rs) =
          last-IsSearching q g nodes forward_start reverse_start forward_heap reverse_heap f r pos
            targets rounds enough in
        let c =
          retrieve-IsClimb g true forward_start q pos (suc l.weight) s.forward_heap n l
            i.forward.tree e (omega arith) in
        let c' =
          retrieve-IsClimb g false reverse_start q pos (suc k.weight) s.reverse_heap n k
            i.reverse.tree e' (omega arith) in
        let low =
          IsClimb-least g true forward_start (int_offset - w)
            (offset-least q g nodes forward_start reverse_start forward_heap reverse_heap f r) n
            l.weight (retrieve_from_single_heap q g (suc l.weight) s.forward_heap n) c in
        let low' =
          IsClimb-least g false reverse_start int_offset reverse_least n k.weight
            (retrieve_from_single_heap q g (suc k.weight) s.reverse_heap n) c' in
        let sum =
          non_negative n l.weight k.weight
            (retrieve_from_single_heap q g (suc l.weight) s.forward_heap n)
            (retrieve_from_single_heap q g (suc k.weight) s.reverse_heap n) c c' in
        let out = q.size-label s.forward_heap n l i.forward.heap fs e in
        let out' = q.size-label s.reverse_heap n k i.reverse.heap rs e' in
        elim (i.bound.least n l k e e' out out') [
          | inl best ↦ best
          | inr (inl negative) ↦ absurd (omega arith)
          | inr (inr (inl far)) ↦ omega arith
          | inr (inr (inr far)) ↦ omega arith
        ]

    -- Under the same conditions, and with fuel for paths above any sum of two keys that is a valid
    -- distance, the path that Search returns leads from a forward start over edges of the forward search
    -- to a node, and from there back along edges of the reverse search to a reverse start; the distance
    -- that it returns is the sum of the keys of both starts and of the weights of these edges.
    pub search-IsPacked :
        (length : ℕ)
        → invalid_edge_weight + 2 * int_offset < length
        → (distance : ℕ) (packed : List ℕ)
        → search q g rounds length forward_heap reverse_heap ≡ some (distance, packed)
        → IsPacked g forward_start reverse_start distance packed
    unfolding search retrieve_packed_path IsPacked
    search-IsPacked length long distance packed found =
        let (i, fs, rs) =
          last-IsSearching q g nodes forward_start reverse_start forward_heap reverse_heap f r pos
            targets rounds enough in
        elim (Bool-cases (
          (s.meeting.upper_bound == invalid_edge_weight) || (s.meeting.middle == special_nodeid))) [
            | inl unmet ↦ absurd (ground (arith, found))
            | inr set ↦ elim i.bound.met [
              | inl unset ↦ absurd (ground arith)
              | inr (l, k, e, e', le) ↦
                  let least = search_loop-least s.meeting.middle l k e e' in
                  let at : (s.meeting.upper_bound ≡ distance)
                      × (retrieve_packed_path q g length s.forward_heap s.reverse_heap
                            s.meeting.middle
                          ≡ packed) =
                    ground (arith, found) in
                  (
                    s.meeting.middle,
                    retrieve_from_single_heap q g length s.forward_heap s.meeting.middle,
                    retrieve_from_single_heap q g length s.reverse_heap s.meeting.middle,
                    l.weight,
                    k.weight,
                    sym at.1,
                    retrieve-IsClimb g true forward_start q pos length s.forward_heap
                        s.meeting.middle l i.forward.tree e (omega (arith, i.bound.valid)),
                    retrieve-IsClimb g false reverse_start q pos length s.reverse_heap
                        s.meeting.middle k i.reverse.tree e' (omega (arith, i.bound.valid)),
                    omega (arith, at.0),
                  )
            ]
          ]
