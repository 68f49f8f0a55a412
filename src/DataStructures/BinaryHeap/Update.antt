-- ===== src/DataStructures/BinaryHeap/Update.antt =====
-- osrm-backend/data_structures/binary_heap.hpp: DecreaseKey.
use maiden.Prelude.{ℕ, ◌≤◌, ◌<◌, ◌≡◌, sym, ◌≢◌, true, false, arith, write}
use mathlib.Core.Path.{subst}
use maiden.DataStructures.BinaryHeap.Storage.{IndexStorage}
use maiden.DataStructures.BinaryHeap.{
  Arrays, BinaryHeap, size, was_removed, was_inserted, decrease_key, upheap,
}
use maiden.DataStructures.BinaryHeap.Links.{Inv, Hole, FitsBelow}
use maiden.DataStructures.BinaryHeap.Sift.{upheap-Inv}
use maiden.DataStructures.BinaryHeap.View.{view, view-Kept, IsValid}

module _ {D : Type 0} where
  -- The arrays with the weight of node `i` lowered, before its element rises.
  abbrev lower : Arrays D → ℕ → ℕ → Arrays D
  lower a i w =
      let key = (a.inserted_nodes.at i).key in
      record {
        inserted_nodes = write a.inserted_nodes i (record (a.inserted_nodes.at i) { weight = w });
        heap = write a.heap key (record (a.heap.at key) { weight = w });
      }

  lower-Hole :
      (a : Arrays D) (i w : ℕ)
      → Inv a.inserted_nodes.size a
      → i < a.inserted_nodes.size
      → (a.inserted_nodes.at i).key ≢ 0
      → w ≤ (a.inserted_nodes.at i).weight
      → let key = (a.inserted_nodes.at i).key in
        Hole a.inserted_nodes.size (lower a i w) key ((lower a i w).heap.at key)
        × FitsBelow (lower a i w) key ((lower a i w).heap.at key)
  lower-Hole a i w v p q h =
      let key = (a.inserted_nodes.at i).key in
      let at = v.placed i p (omega arith) q in
      let here = v.linked key (omega arith) at.inside in
      (
        record {
          sentinel = ground (arith, v.sentinel, q);
          above = omega arith;
          below = at.inside;
          linked = λ k pk qk rk. ground (arith, v.linked k, here, at);
          placed = λ j pj qj rj sj. ground (arith, v.placed j, here, at);
          inside = ground (arith, here);
          kept = ground (arith, here);
          same = ground (arith, here, at);
          live = ground (arith, here, at);
          order = λ k pk qk rk sk. ground (arith, v.order k);
          bridged = λ k pk qk rk. ground (arith, v.order k, v.order key);
        },
        λ k pk qk. ground (arith, v.order k, here, at, h),
      )

module _ {D : Type 0} (S : IndexStorage) where
  -- What DecreaseKey does to insertion `i`.
  pub record Decreased (h : BinaryHeap S D) (i w : ℕ) (h' : BinaryHeap S D) : Type 0 where
    pub valid : IsValid h'
    pub lowered : view h'.arrays i ≡ record (view h.arrays i) { weight = w }
    pub others : (j : ℕ) → j ≢ i → view h'.arrays j ≡ view h.arrays j
    pub kept : h'.inserted_nodes.size ≡ h.inserted_nodes.size
    pub same : size S h' ≡ size S h

  -- DecreaseKey of a queued node to a weight that is no greater sets the weight of its insertion,
  -- leaves every other one as it was, and keeps the heap valid.
  pub decrease_key_correct :
      (h : BinaryHeap S D) (n w : ℕ)
      → IsValid h
      → was_inserted S h n ≡ true
      → was_removed S h n ≡ false
      → w ≤ (h.inserted_nodes.at (S.peek_index h.node_index n)).weight
      → Decreased h (S.peek_index h.node_index n) w (decrease_key S h n w)
  unfolding decrease_key was_inserted was_removed size
  decrease_key_correct h n w v known queued less =
      let i = S.peek_index h.node_index n in
      let p : i < h.inserted_nodes.size = ground arith in
      let q : (h.inserted_nodes.at i).key ≢ 0 = ground arith in
      let key = (h.inserted_nodes.at i).key in
      let start = lower-Hole h.arrays i w v.inv p q less in
      let r = upheap-Inv h.inserted_nodes.size (lower h.arrays i w) key start.0 start.1 in
      let k = r.1 in
      record {
        valid = record {
          inv = subst (λ s. Inv s (upheap (lower h.arrays i w) key)) (sym k.nodes) r.0;
          indexed = λ j s. ground (arith, v.indexed j, k.node j, k.nodes);
        };
        lowered = ground (arith, view-Kept k i);
        others = λ j s. ground (arith, view-Kept k j);
        kept = k.nodes;
        same = ground (arith, k.places);
      }
