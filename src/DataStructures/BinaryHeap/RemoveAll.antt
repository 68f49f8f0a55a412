-- ===== src/DataStructures/BinaryHeap/RemoveAll.antt =====
-- osrm-backend/data_structures/binary_heap.hpp: DeleteAll.
use maiden.Prelude.{
  ℕ, zero, suc, ◌+◌, ◌-◌, ◌≤◌, ◌<◌, ◌≡◌, refl, ◌∙◌, inl, inr, true, false, Bool-cases, arith, ◌==◌,
}
use maiden.DataStructures.BinaryHeap.Storage.{IndexStorage}
use maiden.DataStructures.BinaryHeap.{Arrays, BinaryHeap, set_key, size, empty, forget, delete_all}
use maiden.DataStructures.BinaryHeap.View.{view, IsValid}

module _ {D : Type 0} (S : IndexStorage) where
  -- What the loop of DeleteAll does to the nodes whose places it passes.
  record Forgot (a : Arrays D) (k n : ℕ) (b : Arrays D) : Type 0 where
    tree : b.heap ≡ a.heap
    nodes : b.inserted_nodes.size ≡ a.inserted_nodes.size
    node : (i : ℕ) → (b.inserted_nodes.at i).node ≡ (a.inserted_nodes.at i).node
    weight : (i : ℕ) → (b.inserted_nodes.at i).weight ≡ (a.inserted_nodes.at i).weight
    payload : (i : ℕ) → (b.inserted_nodes.at i).payload ≡ (a.inserted_nodes.at i).payload
    still : (i : ℕ) → (a.inserted_nodes.at i).key ≡ 0 → (b.inserted_nodes.at i).key ≡ 0
    gone : (j : ℕ) → k ≤ j → j < k + n → (b.inserted_nodes.at (a.heap.at j).index).key ≡ 0

  forget-Forgot : (n k : ℕ) (a : Arrays D) → Forgot a k n (forget S n k a)
  unfolding forget
  forget-Forgot zero k a = record {
    tree = refl;
    nodes = refl;
    node = λ i. refl;
    weight = λ i. refl;
    payload = λ i. refl;
    still = λ i e. e;
    gone = λ j p q. absurd (omega arith);
  }
  forget-Forgot (suc n) k a =
      let step : Arrays D = record a {
        inserted_nodes = set_key a.inserted_nodes (a.heap.at k).index 0;
      } in
      let f = forget-Forgot n (k + 1) step in
      record {
        tree = f.tree;
        nodes = f.nodes;
        node = λ i. f.node i ∙ ground arith;
        weight = λ i. f.weight i ∙ ground arith;
        payload = λ i. f.payload i ∙ ground arith;
        still = λ i e. f.still i (ground arith);
        gone = λ j p q. elim (Bool-cases (k == j)) [
          | inl now ↦ f.still (a.heap.at j).index (ground arith)
          | inr later ↦ f.gone j (ground arith) (omega arith)
        ];
      }

  forgotten :
      (h : BinaryHeap S D)
      → IsValid h
      → (i : ℕ) → i < h.inserted_nodes.size
      → ((forget S (h.heap.size - 1) 1 h.arrays).inserted_nodes.at i).key ≡ 0
  forgotten h v i p =
      let f = forget-Forgot (h.heap.size - 1) 1 h.arrays in
      let key = (h.inserted_nodes.at i).key in
      elim (Bool-cases (key == 0)) [
        | inl left ↦ f.still i (ground arith)
        | inr there ↦
            let at = v.inv.placed i p (omega arith) (ground arith) in ground (arith, at, f.gone key)
      ]

  -- DeleteAll empties a valid heap: every insertion has left, with its node, weight and payload as
  -- they were, and the heap stays valid.
  pub delete_all_correct :
      (h : BinaryHeap S D)
      → IsValid h
      → IsValid (delete_all S h)
        × (empty S (delete_all S h) ≡ true)
        × ((i : ℕ)
            → i < h.inserted_nodes.size
            → view (delete_all S h).arrays i ≡ record (view h.arrays i) { queued = false })
  unfolding delete_all empty size
  delete_all_correct h v =
      let f = forget-Forgot (h.heap.size - 1) 1 h.arrays in
      (
        record {
          inv = record {
            sentinel = refl;
            nonempty = omega arith;
            linked = λ k p q. absurd (omega arith);
            placed = λ i p q r. absurd (r (forgotten h v i (omega (arith, f.nodes))));
            order = λ k p q. absurd (omega arith);
          };
          indexed = λ i p. ground (arith, v.indexed i, f.node i, f.nodes);
        },
        refl,
        λ i p. ground (arith, f.node i, f.weight i, f.payload i, forgotten h v i p),
      )
