-- ===== src/DataStructures/DynamicGraph/Room.antt =====
-- osrm-backend/data_structures/dynamic_graph.hpp: the room that InsertEdge makes.
use maiden.Prelude.{
  ℕ, zero, suc, ◌+◌, ◌-◌, ◌≤◌, ◌<◌, ◌≡◌, refl, sym, ap, ◌∙◌, ◌≢◌, Bool, not, ◌&&◌, ◌||◌, leb, ◌==◌,
  Vector, write, resize, arith, inl, inr, Bool-cases,
}
use maiden.DataStructures.DynamicGraph.{
  Node, Edge, dummy_target, is_dummy, move_edges, new_size, relocate, shift_left, make_room,
}
use maiden.DataStructures.DynamicGraph.Ranges.{
  occurrences, Owns, occurrences-ext, occurrences-snoc, move_edges-kept, move_edges-moved,
  move_edges-size, make_dummies-kept, make_dummies-size,
}

module _ {ℓ} {D : Type ℓ} where
  -- A slot that another node may own.
  abbrev pub IsTaken : Vector (Edge D) → Node → ℕ → Type 0
  IsTaken v node i = (i < v.size) × ((v.at i).target ≢ dummy_target) × (Owns node i → ⊥)

  abbrev pub IsLive : Vector (Edge D) → Node → Type 0
  IsLive v node = (i : ℕ) → Owns node i → (v.at i).target ≢ dummy_target

  -- The node has its edges as before and a slot behind them; no taken slot changes.
  pub record Room (v : Vector (Edge D)) (node : Node) (w : Vector (Edge D)) (node' : Node)
      : Type ℓ where
    pub degree : node'.edges ≡ node.edges
    pub same :
        (p : Edge D → Bool)
        → occurrences p w node'.first_edge node'.edges ≡ occurrences p v node.first_edge node.edges
    pub free :
        (i : ℕ) → node'.first_edge ≤ i → i ≤ node'.first_edge + node'.edges → IsTaken v node i → ⊥
    pub kept : (i : ℕ) → IsTaken v node i → w.at i ≡ v.at i
    pub inside : node'.first_edge + node'.edges < w.size
    pub grows : v.size ≤ w.size
    pub live : IsLive w node'

  Room-behind :
      (v : Vector (Edge D)) (node : Node)
      → IsLive v node
      → node.edges + node.first_edge < v.size
      → (v.at (node.edges + node.first_edge)).target ≡ dummy_target
      → Room v node v node
  Room-behind v node live h d =
      let there : node.edges + node.first_edge ≡ node.first_edge + node.edges = omega arith in
      let place = ap (λ i. (v.at i).target) (sym there) ∙ d in
      record {
        degree = refl;
        same = λ p. refl;
        free = λ i a b t. elim (Bool-cases (i == node.first_edge + node.edges)) [
          | inl here ↦
              let e : i ≡ node.first_edge + node.edges = ground arith in
              t.1 (ap (λ j. (v.at j).target) e ∙ place)
          | inr apart ↦ t.2 (a, ground arith)
        ];
        kept = λ i t. refl;
        inside = omega (arith, h);
        grows = omega arith;
        live = live;
      }

  rotate :
      (p : Edge D → Bool) (v : Vector (Edge D)) (n s t : ℕ)
      → t ≡ s + 1
      → occurrences p (write v s (v.at (s + n))) s n ≡ occurrences p v t n
  unfolding occurrences
  rotate p v zero s t e = refl
  rotate p v (suc n) s t e =
      let w = write v s (v.at (s + suc n)) in
      let last : s + suc n ≡ t + n = omega arith in
      let rest = occurrences-ext p w v (s + 1) t n (λ k h. ground (arith, e)) in
      ground (arith, rest, occurrences-snoc p v t n (suc n) (omega arith), last)

  Room-before :
      (v : Vector (Edge D)) (node : Node)
      → IsLive v node
      → node.first_edge + node.edges ≤ v.size
      → node.first_edge ≢ 0
      → (v.at (node.first_edge - 1)).target ≡ dummy_target
      → Room v node (shift_left v node).0 (shift_left v node).1
  Room-before v node live fits nz d = record {
    degree = refl;
    same = λ p. rotate p v node.edges (node.first_edge - 1) node.first_edge (omega (arith, nz));
    free = λ i a b t. elim (Bool-cases (i == node.first_edge - 1)) [
      | inl here ↦
          let e : i ≡ node.first_edge - 1 = ground arith in t.1 (ap (λ j. (v.at j).target) e ∙ d)
      | inr apart ↦ t.2 (ground (arith, nz), omega (arith, nz))
    ];
    kept = λ i t. elim (Bool-cases (node.first_edge - 1 == i)) [
      | inl here ↦
          let e : i ≡ node.first_edge - 1 = ground arith in
          absurd (t.1 (ap (λ j. (v.at j).target) e ∙ d))
      | inr apart ↦ ground arith
    ];
    inside = omega (arith, nz);
    grows = omega arith;
    live = λ i o e. elim (Bool-cases (node.first_edge - 1 == i)) [
      | inl here ↦
          live (node.first_edge - 1 + node.edges) (ground (arith, nz), ground (arith, nz))
            (ground arith)
      | inr apart ↦ live i (ground (arith, nz), omega (arith, o.1, nz)) (ground arith)
    ];
  }

  Room-relocated :
      (v : Vector (Edge D)) (node : Node)
      → IsLive v node
      → node.first_edge + node.edges ≤ v.size
      → Room v node (relocate v node).0 (relocate v node).1
  unfolding relocate
  Room-relocated v node live fits =
      let size = v.size in
      let n = node.edges in
      let grown = resize v (size + new_size n) in
      let moved = move_edges n node.first_edge size grown in
      let w = (relocate v node).0 in
      let same_at : (k : ℕ) → k < n → w.at (size + k) ≡ v.at (node.first_edge + k) = λ k h.
        make_dummies-kept (new_size n - (n + 1)) (size + (n + 1)) moved (size + k)
          (λ a b. omega arith)
        ∙ move_edges-moved n node.first_edge size grown fits k h in
      record {
        degree = refl;
        same = λ p. occurrences-ext p w v size node.first_edge n same_at;
        free = λ i a b t. omega (arith, t.0);
        kept = λ i t.
            make_dummies-kept (new_size n - (n + 1)) (size + (n + 1)) moved i
              (λ a b. omega (arith, t.0))
            ∙ move_edges-kept n node.first_edge size grown i (λ a b. t.2 (a, b))
                (λ a b. omega (arith, t.0));
        inside = omega (
          arith,
          make_dummies-size (new_size n - (n + 1)) (size + (n + 1)) moved,
          move_edges-size n node.first_edge size grown,
        );
        grows = omega (
          arith,
          make_dummies-size (new_size n - (n + 1)) (size + (n + 1)) moved,
          move_edges-size n node.first_edge size grown,
        );
        live = λ i o e.
            let (k, q) = offset i size o.0 in
            live (node.first_edge + k) (omega arith, omega (arith, o.1))
              (ap (λ x. x.target) (sym (same_at k (omega (arith, o.1))))
                ∙ ap (λ j. (w.at j).target) (sym q)
                ∙ e);
      }
    where
      offset : (i s : ℕ) → s ≤ i → (k : ℕ) × (i ≡ s + k)
      offset i s h = (i - s, omega arith)

  pub make_room-Room :
      (v : Vector (Edge D)) (node : Node)
      → IsLive v node
      → node.first_edge + node.edges ≤ v.size
      → Room v node (make_room v node).0 (make_room v node).1
  unfolding make_room
  make_room-Room v node live fits =
      elim (Bool-cases (
        leb v.size (node.edges + node.first_edge)
        || not (is_dummy v (node.edges + node.first_edge)))) [
          | inl none_behind ↦
              elim (Bool-cases (not (node.first_edge == 0) && is_dummy v (node.first_edge - 1))) [
                | inl before ↦
                    rw (none_behind, before, make_room)
                      (Room-before v node live fits (ground arith) (ground arith))
                | inr none_before ↦
                    rw (none_behind, none_before, make_room) (Room-relocated v node live fits)
              ]
          | inr behind ↦
              rw (behind, make_room) (Room-behind v node live (ground arith) (ground arith))
        ]
