-- ===== src/Algorithms/BfsComponents/Run.antt =====
-- osrm-backend/algorithms/bfs_components.hpp: run, and the sizes that GetComponentSize gives.
use maiden.Prelude.{
  ℕ, zero, suc, ◌+◌, ◌%◌, ◌^◌, ◌≤◌, ◌<◌, ◌≡◌, ◌≢◌, ◌⊎◌, refl, sym, ap, ◌∙◌, Bool, List, push_back,
  ◌==◌, arith, Bool-cases, inl, inr,
}
use maiden.DataStructures.RestrictionMap.{RestrictionMap}
use maiden.Algorithms.BfsComponents.{
  Components, unexplored, explore_component, run_loop, run, get_component_size,
}
use maiden.Algorithms.BfsComponents.Count.{count, count-cong, count-none}
use maiden.Algorithms.BfsComponents.Explore.{IsClosed, Marks, explore_component-Explored}

-- Marking with another component keeps a component's count.
Marks-count :
    (current i n : ℕ) (f g : ℕ → ℕ)
    → Marks current f g
    → i ≢ current
    → i ≢ unexplored
    → count g i n ≡ count f i n
Marks-count current i n f g m d d' = count-cong g f i n (λ x. elim (m.new x) [
  | inl same ↦ ground (arith, same)
  | inr now ↦ elim (Bool-cases (f x == i)) [
    | inl held ↦ absurd (ground (arith, m.kept x))
    | inr other ↦ ground (arith, now)
  ]
])

module _ (nodes : ℕ) (targets : ℕ → List ℕ) (restrictions : RestrictionMap)
    (barrier_nodes : ℕ → Bool) (closed : IsClosed nodes targets) (small : suc nodes < 2 ^ 32) where
  -- After the first nodes.
  pub record Ran (k : ℕ) (c : Components) : Type 0 where
    pub components : c.current_component ≤ k
    pub sizes_size : c.component_index_size.size ≡ c.current_component
    pub range :
        (x : ℕ)
        → (c.component_index_list x ≡ unexplored) ⊎ (c.component_index_list x < c.current_component)
    pub visited : (x : ℕ) → x < k → c.component_index_list x ≢ unexplored
    pub sizes :
        (i : ℕ)
        → i < c.current_component
        → c.component_index_size.at i ≡ suc (count c.component_index_list i nodes)

  explored-Ran :
      (k : ℕ) (c : Components)
      → k < nodes
      → Ran k c
      → c.component_index_list k ≡ unexplored
      → let s =
          explore_component nodes targets restrictions barrier_nodes c.current_component k
            c.component_index_list in
        Ran (suc k) (record {
          component_index_list = s.component_index_list;
          component_index_size = push_back c.component_index_size s.current_component_size;
          current_component = (c.current_component + 1) % 2 ^ 32;
        })
  explored-Ran k c lt h free =
      let current = c.current_component in
      let s =
        explore_component nodes targets restrictions barrier_nodes current k
          c.component_index_list in
      let fresh : current ≢ unexplored = λ e. absurd (omega (arith, h.components)) in
      let unused = count-none c.component_index_list current nodes (λ x e. elim (h.range x) [
        | inl f ↦ fresh (sym e ∙ f)
        | inr below ↦ absurd (omega (arith, below))
      ]) in
      let (e, own) =
        explore_component-Explored nodes targets restrictions barrier_nodes current fresh closed
          small k c.component_index_list lt free unused in
      let next : (current + 1) % 2 ^ 32 ≡ current + 1 = omega (arith, h.components) in
      rw next (record {
        components = omega (arith, h.components);
        sizes_size = ap (λ x. x + 1) h.sizes_size;
        range = λ x. elim (e.marks.new x) [
          | inl same ↦ elim (h.range x) [
            | inl unseen ↦ inl (same ∙ unseen)
            | inr below ↦ inr (omega (arith, same))
          ]
          | inr now ↦ inr (omega (arith, now))
        ];
        visited = λ x q un. elim (Bool-cases (x == k)) [
          | inl here ↦
              let at : x ≡ k = ground arith in
              fresh (sym own ∙ (sym (ap s.component_index_list at) ∙ un))
          | inr before ↦
              let seen = h.visited x (ground arith) in seen (sym (e.marks.kept x seen) ∙ un)
        ];
        sizes = λ i q. elim (Bool-cases (c.component_index_size.size == i)) [
          | inl last ↦
              let at : current ≡ i = ground (arith, h.sizes_size) in
              rw last (e.size ∙ ap (λ x. suc (count s.component_index_list x nodes)) at)
          | inr before ↦
              let below : i < current = ground (arith, h.sizes_size) in
              let same =
                Marks-count current i nodes c.component_index_list s.component_index_list e.marks
                  (λ d. absurd (omega arith)) (λ d. absurd (omega (arith, h.components))) in
              rw before (omega (arith, h.sizes i below, same))
        ];
      })

  run_loop-Ran : (k : ℕ) → k ≤ nodes → Ran k (run_loop nodes targets restrictions barrier_nodes k)
  unfolding run_loop
  run_loop-Ran zero le = record {
    components = omega arith;
    sizes_size = refl;
    range = λ x. inl refl;
    visited = λ x lt. absurd (omega arith);
    sizes = λ i lt. absurd (omega arith);
  }
  run_loop-Ran (suc k) le =
      let c = run_loop nodes targets restrictions barrier_nodes k in
      let h = run_loop-Ran k (omega arith) in
      elim (Bool-cases (unexplored == c.component_index_list k)) [
        | inl free ↦ rw free (explored-Ran k c (omega arith) h (ground arith))
        | inr seen ↦ rw seen (record {
          components = omega (arith, h.components);
          sizes_size = h.sizes_size;
          range = h.range;
          visited = λ x q. elim (Bool-cases (x == k)) [
            | inl here ↦
                let at : x ≡ k = ground arith in
                λ un. absurd (ground (arith, sym (ap c.component_index_list at) ∙ un))
            | inr before ↦ h.visited x (ground arith)
          ];
          sizes = h.sizes;
        })
      ]

  -- On a graph with fewer than 2^32 - 1 nodes whose edges lead to nodes, run gives every node a component
  -- that has a size, and GetComponentSize of a node is one more than the number of nodes in its component.
  pub run-get_component_size :
      (node : ℕ)
      → node < nodes
      → let c = run nodes targets restrictions barrier_nodes in
        (c.component_index_list node < c.component_index_size.size)
        × (get_component_size nodes targets restrictions barrier_nodes c node
            ≡ suc (count c.component_index_list (c.component_index_list node) nodes))
  unfolding run
  run-get_component_size node lt =
      let h = run_loop-Ran nodes (omega arith) in
      elim (h.range node) [
        | inl unseen ↦ absurd (h.visited node lt unseen)
        | inr below ↦ (
          omega (arith, h.sizes_size),
          h.sizes ((run nodes targets restrictions barrier_nodes).component_index_list node) below,
        )
      ]
