-- ===== src/DataStructures/DynamicGraph/Ranges.antt =====
-- osrm-backend/data_structures/dynamic_graph.hpp: the ranges of the nodes, and the edges in them.
use maiden.Prelude.{
  ℕ, zero, suc, ◌+◌, ◌≤◌, ◌<◌, ◌≡◌, refl, ap, ◌∙◌, ◌≢◌, Bool, ◌==◌, if◌then◌else◌, Vector, write,
  arith, inl, inr, Bool-cases,
}
use maiden.DataStructures.DynamicGraph.{
  empty_graph, Node, Edge, DynamicGraph, dummy_target, make_dummy, move_edges, make_dummies,
}

abbrev pub one : Bool → ℕ
one b = if b then 1 else 0

abbrev pub Owns : Node → ℕ → Type 0
Owns node i = (node.first_edge ≤ i) × (i < node.first_edge + node.edges)

module _ {ℓ} {D : Type ℓ} where
  -- How many of the `n` edges from the slot `s` on have a property.
  unfoldable pub occurrences : (Edge D → Bool) → Vector (Edge D) → ℕ → ℕ → ℕ
  occurrences p v s zero = 0
  occurrences p v s (suc n) = one (p (v.at s)) + occurrences p v (s + 1) n

  -- How many edges of a node have a property.
  abbrev pub edges_with : (Edge D → Bool) → DynamicGraph D → ℕ → ℕ
  edges_with p g n =
      occurrences p g.edge_list (g.node_array.at n).first_edge (g.node_array.at n).edges

  -- The ranges lie in the list, have no dummies and do not overlap.
  pub record IsValid (g : DynamicGraph D) : Type 0 where
    pub fits :
        (n : ℕ)
        → n < g.node_array.size
        → (g.node_array.at n).first_edge + (g.node_array.at n).edges ≤ g.edge_list.size
    pub live :
        (n i : ℕ)
        → n < g.node_array.size
        → Owns (g.node_array.at n) i
        → (g.edge_list.at i).target ≢ dummy_target
    pub apart :
        (m n i : ℕ)
        → m < g.node_array.size
        → n < g.node_array.size
        → m ≢ n
        → Owns (g.node_array.at m) i
        → Owns (g.node_array.at n) i
        → ⊥

  pub empty_graph-IsValid : (nodes : ℕ) (initial : ℕ → Edge D) → IsValid (empty_graph nodes initial)
  unfolding empty_graph
  empty_graph-IsValid nodes initial = record {
    fits = λ n q. omega arith;
    live = λ n i q o. absurd (omega (arith, o.0, o.1));
    apart = λ m n i q q' d o o'. omega (arith, o.0, o.1);
  }

  -- Node `m` has the same edges, in the same slots.
  pub record SameEdges (g h : DynamicGraph D) (m : ℕ) : Type ℓ where
    pub node : h.node_array.at m ≡ g.node_array.at m
    pub edge : (i : ℕ) → Owns (g.node_array.at m) i → h.edge_list.at i ≡ g.edge_list.at i

  pub occurrences-ext :
      (p : Edge D → Bool) (v w : Vector (Edge D)) (s t n : ℕ)
      → ((k : ℕ) → k < n → v.at (s + k) ≡ w.at (t + k))
      → occurrences p v s n ≡ occurrences p w t n
  unfolding occurrences
  occurrences-ext p v w s t zero h = refl
  occurrences-ext p v w s t (suc n) h =
      let here : v.at s ≡ w.at t =
        ap v.at (omega arith) ∙ h 0 (omega arith) ∙ ap w.at (omega arith) in
      let rest =
        occurrences-ext p v w (s + 1) (t + 1) n
          (λ k q. ap v.at (omega arith) ∙ h (suc k) (omega arith) ∙ ap w.at (omega arith)) in
      omega (arith, rest, ap (λ e. one (p e)) here)

  pub occurrences-snoc :
      (p : Edge D → Bool) (v : Vector (Edge D)) (s n m : ℕ)
      → m ≡ n + 1
      → occurrences p v s m ≡ occurrences p v s n + one (p (v.at (s + n)))
  unfolding occurrences
  occurrences-snoc p v s zero zero e = absurd (omega arith)
  occurrences-snoc p v s zero (suc zero) e =
      let here : s ≡ s + 0 = omega arith in omega (arith, ap (λ i. one (p (v.at i))) here)
  occurrences-snoc p v s zero (suc (suc m)) e = absurd (omega arith)
  occurrences-snoc p v s (suc n) zero e = absurd (omega arith)
  occurrences-snoc p v s (suc n) (suc m) e =
      let shift : s + 1 + n ≡ s + suc n = omega arith in
      omega
        (arith, occurrences-snoc p v (s + 1) n m (omega arith), ap (λ i. one (p (v.at i))) shift)

  -- Another edge in a slot of the range.
  pub occurrences-write :
      (p : Edge D → Bool) (v : Vector (Edge D)) (i : ℕ) (x : Edge D) (s n : ℕ)
      → s ≤ i
      → i < s + n
      → occurrences p (write v i x) s n + one (p (v.at i)) ≡ occurrences p v s n + one (p x)
  unfolding occurrences
  occurrences-write p v i x s zero a b = absurd (omega arith)
  occurrences-write p v i x s (suc n) a b = elim (Bool-cases (i == s)) [
    | inl here ↦
        let same : i ≡ s = ground arith in
        let rest = occurrences-ext p (write v i x) v (s + 1) (s + 1) n (λ k q. ground arith) in
        ground (arith, rest, same)
    | inr there ↦
        let rest = occurrences-write p v i x (s + 1) n (ground arith) (omega arith) in
        ground (arith, rest)
  ]

  pub move_edges-kept :
      (n s t : ℕ) (v : Vector (Edge D)) (j : ℕ)
      → (s ≤ j → j < s + n → ⊥)
      → (t ≤ j → j < t + n → ⊥)
      → (move_edges n s t v).at j ≡ v.at j
  unfolding move_edges
  move_edges-kept zero s t v j a b = refl
  move_edges-kept (suc n) s t v j a b =
      move_edges-kept n (s + 1) (t + 1) (make_dummy (write v t (v.at s)) s) j
        (λ h k. a (omega arith) (omega arith)) (λ h k. b (omega arith) (omega arith))
      ∙ kept
    where
      kept : (make_dummy (write v t (v.at s)) s).at j ≡ v.at j
      kept = elim (Bool-cases (s == j)) [
        | inl here ↦ absurd (a (ground arith) (ground arith))
        | inr there ↦ elim (Bool-cases (t == j)) [
          | inl here ↦ absurd (b (ground arith) (ground arith))
          | inr apart ↦ ground arith
        ]
      ]

  pub move_edges-moved :
      (n s t : ℕ) (v : Vector (Edge D))
      → s + n ≤ t
      → (k : ℕ) → k < n
      → (move_edges n s t v).at (t + k) ≡ v.at (s + k)
  unfolding move_edges
  move_edges-moved zero s t v h k q = absurd (omega arith)
  move_edges-moved (suc n) s t v h zero q =
      move_edges-kept n (s + 1) (t + 1) (make_dummy (write v t (v.at s)) s) (t + 0)
        (λ a b. omega arith) (λ a b. omega arith)
      ∙ ground arith
  move_edges-moved (suc n) s t v h (suc k) q =
      let w = make_dummy (write v t (v.at s)) s in
      let there : t + suc k ≡ t + 1 + k = omega arith in
      let here : s + suc k ≡ s + 1 + k = omega arith in
      ap (move_edges n (s + 1) (t + 1) w).at there
      ∙ move_edges-moved n (s + 1) (t + 1) w (omega arith) k (omega arith)
      ∙ ground (arith, here)

  pub move_edges-size : (n s t : ℕ) (v : Vector (Edge D)) → (move_edges n s t v).size ≡ v.size
  unfolding move_edges
  move_edges-size zero s t v = refl
  move_edges-size (suc n) s t v =
      move_edges-size n (s + 1) (t + 1) (make_dummy (write v t (v.at s)) s)

  pub make_dummies-kept :
      (n i : ℕ) (v : Vector (Edge D)) (j : ℕ)
      → (i ≤ j → j < i + n → ⊥)
      → (make_dummies n i v).at j ≡ v.at j
  unfolding make_dummies
  make_dummies-kept zero i v j h = refl
  make_dummies-kept (suc n) i v j h =
      make_dummies-kept n (i + 1) (make_dummy v i) j (λ a b. h (omega arith) (omega arith)) ∙ kept
    where
      kept : (make_dummy v i).at j ≡ v.at j
      kept = elim (Bool-cases (i == j)) [
        | inl here ↦ absurd (h (ground arith) (ground arith))
        | inr there ↦ ground arith
      ]

  pub make_dummies-size : (n i : ℕ) (v : Vector (Edge D)) → (make_dummies n i v).size ≡ v.size
  unfolding make_dummies
  make_dummies-size zero i v = refl
  make_dummies-size (suc n) i v = make_dummies-size n (i + 1) (make_dummy v i)
