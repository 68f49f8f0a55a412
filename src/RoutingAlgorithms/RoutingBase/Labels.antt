-- ===== src/RoutingAlgorithms/RoutingBase/Labels.antt =====
-- osrm-backend/routing_algorithms/routing_base.hpp: what a search knows of the nodes.
use maiden.Prelude.{
  ℕ, ◌+◌, ◌≤◌, ◌<◌, ◌≡◌, ◌⊎◌, refl, sym, ap, ◌∙◌, Bool, true, false, Option, some, List, [], ◌∷◌,
  ltb, ◌==◌, arith, Bool-cases, Option-cases, inl, inr,
}
use maiden.RoutingAlgorithms.QueryHeap.{QueryHeap, Label, is_some, update}
use maiden.RoutingAlgorithms.RoutingBase.{Facade, flag, relax_edge, relax}

-- An edge id among those of a list.
abbrev pub Has : ℕ → List ℕ → Type 0
Has e [] = ⊥
Has e (x ∷ xs) = (e ≡ x) ⊎ Has e xs

-- An edge that leads the search on from one node to another.
abbrev pub Leads : Facade → Bool → ℕ → ℕ → ℕ → Type 0
Leads g forward_direction u e v =
    Has e (g.adjacent u) × (flag g forward_direction e ≡ true) × (g.target e ≡ v)

abbrev pub Labels : Type 0
Labels = ℕ → Option Label

-- The weights of the edges are positive.
abbrev pub IsPositive : Facade → Type 0
IsPositive g = (e : ℕ) → 0 < g.distance e

-- The label is that of a start, or that of an edge from a node that has left the heap.
abbrev pub Supported : Facade → Bool → (ℕ → Option ℕ) → Labels → ℕ → Label → Type 0
Supported g d start f n l =
    ((start n ≡ some l.weight) × (l.parent ≡ n))
    ⊎ ((e : ℕ) × (k : Label) × Leads g d l.parent e n
        × (f l.parent ≡ some k)
        × (k.queued ≡ false)
        × (l.weight ≡ k.weight + g.distance e))

-- Labels that left the heap are no greater than those in it, and every label is supported.
pub record IsTree (g : Facade) (d : Bool) (start : ℕ → Option ℕ) (f : Labels) : Type 0 where
  pub ordered :
      (n m : ℕ) (l k : Label)
      → f n ≡ some l
      → f m ≡ some k
      → l.queued ≡ false
      → k.queued ≡ true
      → l.weight ≤ k.weight
  pub supported : (n : ℕ) (l : Label) → f n ≡ some l → Supported g d start f n l

-- What relaxing edges of `node`, which left the heap with `key`, does to the labels.
pub record Relaxed (g : Facade) (d : Bool) (node key : ℕ) (f f' : Labels) : Type 0 where
  pub settled : (n : ℕ) (l : Label) → f n ≡ some l → l.queued ≡ false → f' n ≡ some l
  pub source :
      (n : ℕ) (l : Label)
      → f' n ≡ some l
      → (f n ≡ some l)
        ⊎ ((l.queued ≡ true)
            × (l.parent ≡ node)
            × ((e : ℕ) × Leads g d node e n × (l.weight ≡ key + g.distance e)))
  pub known :
      (n : ℕ) (l : Label) → f n ≡ some l → (k : Label) × (f' n ≡ some k) × (k.weight ≤ l.weight)

pub Relaxed-refl : (g : Facade) (d : Bool) (node key : ℕ) (f : Labels) → Relaxed g d node key f f
Relaxed-refl g d node key f = record {
  settled = λ n l e s. e;
  source = λ n l e. inl e;
  known = λ n l e. (l, e, omega arith);
}

pub Relaxed-trans :
    (g : Facade) (d : Bool) (node key : ℕ) (f f' f'' : Labels)
    → Relaxed g d node key f f'
    → Relaxed g d node key f' f''
    → Relaxed g d node key f f''
Relaxed-trans g d node key f f' f'' r s = record {
  settled = λ n l e q. s.settled n l (r.settled n l e q) q;
  source = λ n l e. elim (s.source n l e) [ inl old ↦ r.source n l old | inr new ↦ inr new ];
  known = λ n l e.
      let (k, e', le) = r.known n l e in
      let (k', e'', le') = s.known n k e' in (k', e'', omega arith);
}

-- No label above the key has left the heap.
abbrev pub AtKey : ℕ → Labels → Type 0
AtKey key f = (n : ℕ) (l : Label) → f n ≡ some l → l.queued ≡ false → l.weight ≤ key

module _ (g : Facade) (d : Bool) (node key : ℕ) where
  abbrev reached : ℕ → Label
  reached e = record { weight = key + g.distance e; parent = node; queued = true }

  -- One label replaced by a queued one that an edge from the node gives.
  update-Relaxed :
      (f f' : Labels) (e : ℕ)
      → Leads g d node e (g.target e)
      → ((l : Label)
          → f (g.target e) ≡ some l
          → (l.queued ≡ true) × (key + g.distance e ≤ l.weight))
      → ((m : ℕ) → f' m ≡ update f (g.target e) (reached e) m)
      → Relaxed g d node key f f'
  update-Relaxed f f' e leads better after = record {
    settled = λ n l h s. elim (Bool-cases (g.target e == n)) [
      | inl here ↦
          let same : g.target e ≡ n = ground arith in
          absurd (ground (arith, better l (ap f same ∙ h)))
      | inr apart ↦ ground (arith, after n)
    ];
    source = λ n l h. elim (Bool-cases (g.target e == n)) [
      | inl here ↦
          let same : g.target e ≡ n = ground arith in
          inr (
            ground (arith, after n),
            ground (arith, after n),
            (e, (leads.0, leads.1, same), ground (arith, after n)),
          )
      | inr apart ↦ inl (ground (arith, after n))
    ];
    known = λ n l h. elim (Bool-cases (g.target e == n)) [
      | inl here ↦
          let same : g.target e ≡ n = ground arith in
          (reached e, ground (arith, after n), (better l (ap f same ∙ h)).1)
      | inr apart ↦ (l, ground (arith, after n), omega arith)
    ];
  }

  queued_of :
      (f : Labels)
      → AtKey key f
      → (n : ℕ) (l : Label) → f n ≡ some l
      → key < l.weight
      → l.queued ≡ true
  queued_of f at n l e h = elim (Bool-cases l.queued) [
    | inl yes_queued ↦ yes_queued
    | inr settled ↦ absurd (omega (arith, at n l e settled))
  ]

  pub Relaxed-AtKey : (f f' : Labels) → Relaxed g d node key f f' → AtKey key f → AtKey key f'
  Relaxed-AtKey f f' r at n l e s = elim (r.source n l e) [
    | inl old ↦ at n l old s
    | inr new ↦ absurd (ground (arith, new.0))
  ]

  module _ (q : QueryHeap) (pos : IsPositive g) where
    open q use {Heap, IsHeap, label}

    relax_edge-Relaxed :
        (h : Heap) (e : ℕ)
        → IsHeap h
        → AtKey key (label h)
        → Has e (g.adjacent node)
        → IsHeap (relax_edge q g h node key d e)
          × Relaxed g d node key (label h) (label (relax_edge q g h node key d e))
    unfolding relax_edge
    relax_edge-Relaxed h e v at has =
        let to = g.target e in
        let w = key + g.distance e in
        elim (Bool-cases (flag g d e)) [
          | inr closed ↦ rw (closed, relax_edge) (v, Relaxed-refl g d node key (label h))
          | inl open_edge ↦ elim (Option-cases (label h to)) [
            | inl new ↦
                let fresh : q.was_inserted h to ≡ false =
                  q.was_inserted-label h to ∙ ap is_some new in
                let r = q.insert-label h to w node v new in
                rw (open_edge, fresh, relax_edge)
                  (
                    r.0,
                    update-Relaxed (label h) (label (q.insert h to w node)) e (has, open_edge, refl)
                        (λ l b. absurd (cc (sym new ∙ b))) r.1,
                  )
            | inr (l, old) ↦
                let held : q.was_inserted h to ≡ true =
                  q.was_inserted-label h to ∙ ap is_some old in
                let key_of : q.get_key h to ≡ l.weight = q.get_key-label h to l v old in
                elim (Bool-cases (ltb w l.weight)) [
                  | inr worse ↦
                      rw (open_edge, held, key_of, worse, relax_edge)
                        (v, Relaxed-refl g d node key (label h))
                  | inl better ↦
                      let waits : l.queued ≡ true =
                        queued_of (label h) at to l old (ground arith) in
                      let p = q.set_parent-label h to node l v old in
                      let mid = q.set_parent h to node in
                      let held' : label mid to ≡ some (record l { parent = node }) =
                        ground (arith, p.1 to) in
                      let r =
                        q.decrease_key-label mid to w (record l { parent = node }) p.0 held' waits
                          (ground arith) in
                      rw (open_edge, held, key_of, better, relax_edge)
                        (
                          r.0,
                          update-Relaxed (label h) (label (q.decrease_key mid to w)) e
                              (has, open_edge, refl) (λ k b. ground arith)
                              (λ m. ground (arith, r.1 m, p.1 m, waits)),
                        )
                ]
          ]
        ]

    pub relax-Relaxed :
        (h : Heap) (es : List ℕ)
        → IsHeap h
        → AtKey key (label h)
        → ((e : ℕ) → Has e es → Has e (g.adjacent node))
        → IsHeap (relax q g h node key d es)
          × Relaxed g d node key (label h) (label (relax q g h node key d es))
    unfolding relax
    relax-Relaxed h [] v at sub = (v, Relaxed-refl g d node key (label h))
    relax-Relaxed h (e ∷ es) v at sub =
        let h' = relax_edge q g h node key d e in
        let r = relax_edge-Relaxed h e v at (sub e (inl refl)) in
        let s =
          relax-Relaxed h' es r.0 (Relaxed-AtKey (label h) (label h') r.1 at)
            (λ x b. sub x (inr b)) in
        (
          s.0,
          Relaxed-trans g d node key (label h) (label h') (label (relax q g h' node key d es)) r.1
              s.1,
        )
