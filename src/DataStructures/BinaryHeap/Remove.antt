-- ===== src/DataStructures/BinaryHeap/Remove.antt =====
-- osrm-backend/data_structures/binary_heap.hpp: DeleteMin.
use maiden.Prelude.{
  ℕ, zero, suc, ◌+◌, ◌-◌, ◌/◌, ◌≤◌, ◌<◌, ◌≡◌, ◌≢◌, inl, inr, true, false, Bool-cases, arith, ltb,
  pop_back, write,
}
use maiden.DataStructures.BinaryHeap.Storage.{IndexStorage}
use maiden.DataStructures.BinaryHeap.{
  Arrays, BinaryHeap, set_key, size, empty, drop_root, delete_min,
}
use maiden.DataStructures.BinaryHeap.Links.{Inv, Hole, FitsAbove, Kept, Kept-refl}
use maiden.DataStructures.BinaryHeap.Sift.{downheap-Inv}
use maiden.DataStructures.BinaryHeap.View.{view, view-Kept, IsValid}

module _ {D : Type 0} where
  -- The root of the tree has the least weight.
  root_le :
      (fuel gone : ℕ) (a : Arrays D) (k : ℕ)
      → k < fuel
      → Inv gone a
      → 0 < k
      → k < a.heap.size
      → (a.heap.at 1).weight ≤ (a.heap.at k).weight
  root_le zero gone a k f v p q = absurd (omega arith)
  root_le (suc fuel) gone a k f v p q = ground (arith, v.order k, root_le fuel gone a (k / 2))

  root-least :
      (a : Arrays D) (j : ℕ)
      → Inv a.inserted_nodes.size a
      → 1 < a.heap.size
      → j < a.inserted_nodes.size
      → (a.inserted_nodes.at j).key ≢ 0
      → (a.inserted_nodes.at (a.heap.at 1).index).weight ≤ (a.inserted_nodes.at j).weight
  root-least a j v more p q =
      let key = (a.inserted_nodes.at j).key in
      let at = v.placed j p (omega arith) q in
      let here = v.linked key (omega arith) at.inside in
      let root = v.linked 1 (omega arith) more in
      ground (arith, at, here, root, root_le (suc key) a.inserted_nodes.size a key)

  -- The arrays of a heap whose last place has been moved to the root.
  root-Hole :
      (a : Arrays D)
      → Inv a.inserted_nodes.size a
      → 2 < a.heap.size
      → let b : Arrays D = record a {
        heap = pop_back (write a.heap 1 (a.heap.at (a.heap.size - 1)));
      } in
        Hole (a.heap.at 1).index b 1 (b.heap.at 1) × FitsAbove b 1 (b.heap.at 1)
  root-Hole a v h =
      let last = a.heap.size - 1 in
      let root = v.linked 1 (omega arith) (omega arith) in
      let end = v.linked last (omega arith) (omega arith) in
      (
        record {
          sentinel = ground (arith, v.sentinel);
          above = omega arith;
          below = omega arith;
          linked = λ k pk qk rk. ground (arith, v.linked k, root, end);
          placed = λ i pi qi ri si. ground (arith, v.placed i, root, end);
          inside = ground (arith, end);
          kept = ground (arith, end, root);
          same = ground (arith, end);
          live = ground (arith, end);
          order = λ k pk qk rk sk. ground (arith, v.order k);
          bridged = λ k pk qk rk. ground arith;
        },
        λ p. absurd (omega arith),
      )

  abbrev shrink : Arrays D → Arrays D
  shrink a = record a { heap = pop_back (write a.heap 1 (a.heap.at (a.heap.size - 1))) }

  drop_root-Inv :
      (a : Arrays D)
      → Inv a.inserted_nodes.size a
      → 1 < a.heap.size
      → Inv (a.heap.at 1).index (drop_root a) × Kept (shrink a) (drop_root a)
  unfolding drop_root
  drop_root-Inv a v h = elim (Bool-cases (ltb 1 (a.heap.size - 1))) [
    | inl more ↦
        let start = root-Hole a v (ground arith) in
        rw more (downheap-Inv (a.heap.at 1).index (shrink a) 1 start.0 start.1)
    | inr last ↦ rw last (
      record {
        sentinel = ground (arith, v.sentinel);
        nonempty = omega arith;
        linked = λ k p q. ground arith;
        placed = λ i p q r. ground (arith, v.placed i);
        order = λ k p q. ground arith;
      },
      Kept-refl (shrink a),
    )
  ]

  -- A node that is leaving has left when its key is 0.
  leave-Inv :
      (gone : ℕ) (a : Arrays D)
      → Inv gone a
      → Inv a.inserted_nodes.size (record a { inserted_nodes = set_key a.inserted_nodes gone 0 })
  leave-Inv gone a v = record {
    sentinel = v.sentinel;
    nonempty = v.nonempty;
    linked = λ k p q. ground (arith, v.linked k);
    placed = λ i p q r. ground (arith, v.placed i);
    order = v.order;
  }

module _ {D : Type 0} (S : IndexStorage) where
  -- What DeleteMin does: `i` is the insertion whose node it returns.
  pub record Deleted (h : BinaryHeap S D) (n : ℕ) (h' : BinaryHeap S D) (i : ℕ) : Type 0 where
    pub valid : IsValid h'
    pub inside : i < h.inserted_nodes.size
    pub was_queued : (view h.arrays i).queued ≡ true
    pub least :
        (j : ℕ)
        → j < h.inserted_nodes.size
        → (view h.arrays j).queued ≡ true
        → (view h.arrays i).weight ≤ (view h.arrays j).weight
    pub returned : n ≡ (view h.arrays i).node
    pub leaves : view h'.arrays i ≡ record (view h.arrays i) { queued = false }
    pub others : (j : ℕ) → j ≢ i → view h'.arrays j ≡ view h.arrays j
    pub kept : h'.inserted_nodes.size ≡ h.inserted_nodes.size
    pub shrunk : size S h' + 1 ≡ size S h

  -- DeleteMin of a heap that is not empty returns the node of a queued insertion of least weight,
  -- marks that insertion as having left, leaves every other one as it was, and keeps the heap valid.
  pub delete_min_correct :
      (h : BinaryHeap S D)
      → IsValid h
      → empty S h ≡ false
      → Deleted h (delete_min S h).0 (delete_min S h).1 (h.heap.at 1).index
  unfolding delete_min empty size
  delete_min_correct h v ne =
      let more : 1 < h.heap.size = ground (arith, ne) in
      let r = drop_root-Inv h.arrays v.inv more in
      let k = r.1 in
      let root = v.inv.linked 1 (omega arith) more in
      let removed = (h.heap.at 1).index in
      record {
        valid = record {
          inv = leave-Inv removed (drop_root h.arrays) r.0;
          indexed = λ i p. ground (arith, v.indexed i, k.node i, k.nodes);
        };
        inside = root.0.inside;
        was_queued = ground (arith, root);
        least = λ j p q. root-least h.arrays j v.inv more p (ground arith);
        returned = ground (arith, k.node removed);
        leaves = ground (arith, view-Kept k removed);
        others = λ j p. ground (arith, view-Kept k j);
        kept = k.nodes;
        shrunk = ground (arith, k.places);
      }
