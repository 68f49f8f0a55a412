-- ===== src/RoutingAlgorithms/RoutingBase/Advance.antt =====
-- osrm-backend/routing_algorithms/routing_base.hpp: RoutingStep, on both heaps and the upper bound.
use mathlib.Core.Path.{subst}
use maiden.Prelude.{
  ℕ, ◌+◌, ◌<◌, ◌≡◌, refl, sym, ap, ◌∙◌, Bool, ◌&&◌, Option, some, ltb, ◌==◌, if◌then◌else◌, arith,
  Bool-cases, Option-cases, inl, inr,
}
use maiden.RoutingAlgorithms.QueryHeap.{QueryHeap, Label, Popped, leave}
use maiden.RoutingAlgorithms.RoutingBase.{Facade, Meeting, meet, is_stalled, relax, routing_step}
use maiden.RoutingAlgorithms.RoutingBase.Labels.{IsPositive, IsTree, relax-Relaxed}
use maiden.RoutingAlgorithms.RoutingBase.Step.{
  Advanced, popped-node, popped-AtKey, popped-IsTree, popped-Advanced, Relaxed-IsTree,
  Relaxed-Advanced, dropped-IsTree, dropped-Advanced,
}
use maiden.RoutingAlgorithms.RoutingBase.Meetings.{limit, IsBound, met_at, Advanced-IsBound}

module _ (q : QueryHeap) (g : Facade) (d : Bool) (start : ℕ → Option ℕ) (nodes : ℕ) where
  open q use {Heap, IsHeap, label}

  -- One of the two searches.
  pub record IsSearch (h : Heap) : Type 0 where
    pub heap : IsHeap h
    pub tree : IsTree g d start (label h)
    pub bounded : (n : ℕ) (l : Label) → label h n ≡ some l → n < nodes

  -- What RoutingStep leaves, with the node that it took.
  pub record Stepped (offset : ℕ) (h other h' : Heap) (b' : Meeting) (node key : ℕ) : Type 0 where
    pub search : IsSearch h'
    pub bound : IsBound offset (label h') (label other) b'
    pub advanced : Advanced node key (limit offset b') (label h) (label h')

  met :
      (other : Heap) (b : Meeting) (node key : ℕ)
      → IsHeap other
      → (if q.was_inserted other node then meet b node (q.get_key other node + key) else b)
        ≡ met_at (label other) b node key
  met other b node key v = elim (Option-cases (label other node)) [
    | inl unknown ↦ ground (arith, q.was_inserted-label other node)
    | inr (k, e) ↦ ground (arith, q.was_inserted-label other node, q.get_key-label other node k v e)
  ]

  module _ (pos : IsPositive g) (targets : (e : ℕ) → g.target e < nodes) (offset : ℕ)
      (h other : Heap) (b : Meeting) (s : IsSearch h) (more : 0 < q.size h)
      (bound : IsBound offset (label h) (label other) b) where
    abbrev pub node : ℕ
    node = (q.delete_min h).0

    abbrev pub popped : Heap
    popped = (q.delete_min h).1

    pub removed : Popped (label h) node (label popped)
    removed = (q.delete_min-label h s.heap more).1

    abbrev pub key : ℕ
    key = (removed).label.weight

    abbrev pub b' : Meeting
    b' = met_at (label other) b node key

    -- A heap with the popped node's search goes on.
    stepped :
        (h' : Heap)
        → IsHeap h'
        → IsTree g d start (label h')
        → ((n : ℕ) (l : Label) → label h' n ≡ some l → n < nodes)
        → Advanced node key (limit offset b') (label h) (label h')
        → Stepped offset h other h' b' node key
    stepped h' v t bd a = record {
      search = record { heap = v; tree = t; bounded = bd };
      bound = Advanced-IsBound offset (label h) (label h') (label other) b node key a bound;
      advanced = a;
    }

    popped-bounded : (n : ℕ) (l : Label) → label popped n ≡ some l → n < nodes
    popped-bounded n l e = elim (Option-cases (label h n)) [
      | inl unknown ↦ elim (Bool-cases (node == n)) [
        | inl here ↦
            let same : node ≡ n = ground arith in
            absurd (cc (sym unknown ∙ (ap (label h) (sym same) ∙ removed.held)))
        | inr apart ↦ absurd (ground (arith, removed.after n))
      ]
      | inr (k, f) ↦ s.bounded n k f
    ]

    popped_search : IsHeap popped × IsTree g d start (label popped)
    popped_search = (
      (q.delete_min-label h s.heap more).0,
      popped-IsTree node (label h) (label popped) removed g d start s.tree,
    )

    popped-Stepped : Stepped offset h other popped b' node key
    popped-Stepped =
        stepped popped popped_search.0 popped_search.1 popped-bounded
          (popped-Advanced node (label h) (label popped) removed (limit offset b'))

    relaxed-Stepped :
        Stepped offset h other (relax q g popped node key d (g.adjacent node)) b' node key
    relaxed-Stepped =
        let f1 = label popped in
        let h' = relax q g popped node key d (g.adjacent node) in
        let at = popped-AtKey node (label h) f1 removed g d start s.tree in
        let r =
          relax-Relaxed g d node key q pos popped (g.adjacent node) popped_search.0 at (λ e b. b) in
        let own = popped-node node (label h) f1 removed in
        stepped h' r.0
          (Relaxed-IsTree g d start node key f1 (label h') r.1 at
            (leave (removed).label, own, refl, refl) popped_search.1)
          (λ n l e. elim (r.1.source n l e) [
            | inl old ↦ popped-bounded n l old
            | inr (w, up, (x, leads, eq)) ↦ subst (λ m. m < nodes) leads.2 (targets x)
          ])
          (Relaxed-Advanced g d node key (limit offset b') (label h) f1 (label h')
            (popped-Advanced node (label h) f1 removed (limit offset b')) r.1)

    dropped-Stepped :
        limit offset b' < key → Stepped offset h other (q.delete_all popped) b' node key
    dropped-Stepped far =
        let f1 = label popped in
        let r = q.delete_all-label popped popped_search.0 in
        stepped (q.delete_all popped) r.0
          (dropped-IsTree g d start f1 (label (q.delete_all popped)) r.2 popped_search.1)
          (λ n l e. elim (Option-cases (f1 n)) [
            | inl unknown ↦ absurd (ground (arith, r.2 n))
            | inr (k, f) ↦ popped-bounded n k f
          ])
          (dropped-Advanced node key (limit offset b') (label h) f1 (label (q.delete_all popped))
            (popped-Advanced node (label h) f1 removed (limit offset b')) r.2
            (λ n l e w. elim (Bool-cases (node == n)) [
              | inl here ↦ absurd (ground (arith, (removed).after n))
              | inr apart ↦
                  let before : label h n ≡ some l = ground (arith, (removed).after n) in
                  omega (arith, (removed).least n l before w)
            ]))

    -- RoutingStep, whatever it decides.
    pub routing_step-Stepped :
        (stalling : Bool)
        → IsHeap other
        → Stepped offset h other
            (routing_step q g h other b offset d stalling).0
            (routing_step q g h other b offset d stalling).1
            node
            key
    unfolding routing_step
    routing_step-Stepped stalling w =
        let own : q.get_key popped node ≡ key =
          q.get_key-label popped node (leave (removed).label) popped_search.0
            (popped-node node (label h) (label popped) removed) in
        rw (own, met other b node key w, routing_step)
          (elim (Bool-cases (ltb (limit offset b') key)) [
            | inl far ↦ rw far (dropped-Stepped (ground arith))
            | inr near ↦
                elim (Bool-cases (stalling && is_stalled q g popped key d (g.adjacent node))) [
                  | inl stalled ↦ rw (near, stalled) popped-Stepped
                  | inr goes ↦ rw (near, goes) relaxed-Stepped
                ]
          ])
