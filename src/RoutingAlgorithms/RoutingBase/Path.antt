-- ===== src/RoutingAlgorithms/RoutingBase/Path.antt =====
-- osrm-backend/routing_algorithms/routing_base.hpp: the paths that the parents of the labels give.
use maiden.Prelude.{
  ℕ, zero, suc, ◌+◌, ◌≤◌, ◌<◌, ◌≡◌, sym, ap, ◌∙◌, Bool, true, false, Option, some, List, [], ◌∷◌,
  ◌==◌, arith, Bool-cases, inl, inr,
}
use maiden.RoutingAlgorithms.QueryHeap.{QueryHeap, Label}
use maiden.RoutingAlgorithms.RoutingBase.{Facade, retrieve_from_single_heap}
use maiden.RoutingAlgorithms.RoutingBase.Labels.{Labels, Leads, IsPositive, IsTree}

-- The nodes above `n`, each with an edge to the one before, up to a start; the weights of the edges
-- and the key of the start add up to the weight.
unfoldable pub IsClimb : Facade → Bool → (ℕ → Option ℕ) → ℕ → ℕ → List ℕ → Type 0
IsClimb g d start n w [] = start n ≡ some w
IsClimb g d start n w (p ∷ ps) =
    (e : ℕ) × (v : ℕ) × Leads g d p e n × (w ≡ v + g.distance e) × IsClimb g d start p v ps

module _ (g : Facade) (d : Bool) (start : ℕ → Option ℕ) where
  -- No climb is lighter than every start.
  pub IsClimb-least :
      (least : ℕ)
      → ((n k : ℕ) → start n ≡ some k → least ≤ k)
      → (n w : ℕ) (path : List ℕ) → IsClimb g d start n w path
      → least ≤ w
  unfolding IsClimb
  IsClimb-least least starts n w [] c = starts n w c
  IsClimb-least least starts n w (p ∷ ps) (e, v, leads, eq, c) =
      omega (arith, IsClimb-least least starts p v ps c)

  module _ (q : QueryHeap) (pos : IsPositive g) where
    open q use {Heap, IsHeap, label}

    -- A label that an edge gave is not its own parent.
    higher :
        (f : Labels) (n : ℕ) (l : Label)
        → f n ≡ some l
        → (x : ℕ) (k : Label) → f l.parent ≡ some k
        → l.weight ≡ k.weight + g.distance x
        → (n == l.parent) ≡ false
    higher f n l e x k hk w = elim (Bool-cases (n == l.parent)) [
      | inr apart ↦ apart
      | inl here ↦
          let same : n ≡ l.parent = ground arith in
          let one : some l ≡ some k = sym e ∙ (ap f same ∙ hk) in
          absurd (ground (arith, pos x, one))
    ]

    -- With more fuel than the weight, RetrievePackedPathFromSingleHeap gives a path from a start.
    pub retrieve-IsClimb :
        (fuel : ℕ) (h : Heap) (n : ℕ) (l : Label)
        → IsTree g d start (label h)
        → label h n ≡ some l
        → l.weight < fuel
        → IsClimb g d start n l.weight (retrieve_from_single_heap q g fuel h n)
    unfolding IsClimb retrieve_from_single_heap
    retrieve-IsClimb zero h n l t e enough = absurd (omega arith)
    retrieve-IsClimb (suc fuel) h n l t e enough =
        let up : q.get_parent h n ≡ l.parent = q.get_parent-label h n l e in
        elim (t.supported n l e) [
          | inl (begun, own) ↦ let stop : (n == n) ≡ true = ground arith in rw (up, own, stop) begun
          | inr (x, k, leads, hk, sk, w) ↦
              let apart : (n == l.parent) ≡ false = higher (label h) n l e x k hk w in
              let rest = retrieve-IsClimb fuel h l.parent k t hk (omega (arith, pos x)) in
              rw (up, apart) (x, k.weight, leads, w, rest)
        ]
