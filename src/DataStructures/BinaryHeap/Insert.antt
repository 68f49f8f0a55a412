-- ===== src/DataStructures/BinaryHeap/Insert.antt =====
-- osrm-backend/data_structures/binary_heap.hpp: Clear and Insert.
use maiden.Prelude.{ℕ, ◌+◌, ◌<◌, ◌≡◌, refl, sym, ◌∙◌, true, false, ◌||◌, arith, ◌==◌, push_back}
use mathlib.Core.Path.{subst}
use maiden.DataStructures.BinaryHeap.Storage.{IndexStorage}
use maiden.DataStructures.BinaryHeap.{
  HeapNode, HeapElement, Arrays, BinaryHeap, clear, size, insert, was_inserted, upheap,
}
use maiden.DataStructures.BinaryHeap.Links.{Inv, Hole, FitsBelow}
use maiden.DataStructures.BinaryHeap.Sift.{upheap-Inv}
use maiden.DataStructures.BinaryHeap.View.{view, view-Kept, IsValid}

module _ {D : Type 0} where
  last-Hole :
      (a : Arrays D)
      → Inv a.inserted_nodes.size a
      → (e : HeapElement) (n : HeapNode D) → n.key ≡ a.heap.size
      → n.weight ≡ e.weight
      → e.index ≡ a.inserted_nodes.size
      → let b : Arrays D = record {
        inserted_nodes = push_back a.inserted_nodes n;
        heap = push_back a.heap e;
      } in
        Hole (a.inserted_nodes.size + 1) b a.heap.size (b.heap.at a.heap.size)
        × FitsBelow b a.heap.size (b.heap.at a.heap.size)
  last-Hole a v e n p q r = (
    record {
      sentinel = ground (arith, v.sentinel, v.nonempty);
      above = v.nonempty;
      below = omega arith;
      linked = λ k pk qk rk. ground (arith, v.linked k);
      placed = λ i pi qi ri si. ground (arith, v.placed i);
      inside = ground arith;
      kept = ground arith;
      same = ground arith;
      live = ground (arith, v.nonempty);
      order = λ k pk qk rk sk. ground (arith, v.order k);
      bridged = λ k pk qk rk. ground arith;
    },
    λ k pk qk. ground arith,
  )

module _ {D : Type 0} (S : IndexStorage) where
  -- A cleared heap, whatever it was before, is valid and empty and knows no node.
  pub clear_correct :
      (h : BinaryHeap S D)
      → IsValid (clear S h)
        × (size S (clear S h) ≡ 0)
        × ((n : ℕ) → was_inserted S (clear S h) n ≡ false)
  unfolding clear size was_inserted
  clear_correct h = (
    record {
      inv = record {
        sentinel = refl;
        nonempty = omega arith;
        linked = λ k p q. absurd (omega arith);
        placed = λ i p. absurd (omega arith);
        order = λ k p q. absurd (omega arith);
      };
      indexed = λ i p. absurd (omega arith);
    },
    refl,
    λ n. ground arith,
  )

  -- What Insert of a new node does.
  pub record Inserted (h : BinaryHeap S D) (n w : ℕ) (x : D) (h' : BinaryHeap S D) : Type 0 where
    pub valid : IsValid h'
    pub grown : h'.inserted_nodes.size ≡ h.inserted_nodes.size + 1
    pub queued : size S h' ≡ size S h + 1
    pub new :
        view h'.arrays h.inserted_nodes.size
        ≡ record { node = n; weight = w; payload = x; queued = true }
    pub old : (i : ℕ) → i < h.inserted_nodes.size → view h'.arrays i ≡ view h.arrays i
    pub known : (m : ℕ) → was_inserted S h' m ≡ ((m == n) || was_inserted S h m)

  -- Insert of a node that the heap does not hold keeps the heap valid, records the insertion as
  -- queued, leaves the earlier ones as they were, and makes the node known.
  pub insert_correct :
      (h : BinaryHeap S D) (n w : ℕ) (x : D)
      → IsValid h
      → was_inserted S h n ≡ false
      → Inserted h n w x (insert S h n w x)
  unfolding insert size was_inserted
  insert_correct h n w x v f =
      let e : HeapElement = record { index = h.inserted_nodes.size; weight = w } in
      let m : HeapNode D = record { node = n; key = h.heap.size; weight = w; payload = x } in
      let b : Arrays D = record {
        inserted_nodes = push_back h.inserted_nodes m;
        heap = push_back h.heap e;
      } in
      let start = last-Hole h.arrays v.inv e m refl refl refl in
      let r = upheap-Inv (h.inserted_nodes.size + 1) b h.heap.size start.0 start.1 in
      let k = r.1 in
      record {
        valid = record {
          inv = subst (λ s. Inv s (upheap b h.heap.size)) (sym k.nodes) r.0;
          indexed = λ i p. ground (
            arith,
            S.peek_index-assign h.node_index n h.inserted_nodes.size
                ((upheap b h.heap.size).inserted_nodes.at i).node,
            v.indexed i,
            k.node i,
            k.nodes,
          );
        };
        grown = k.nodes;
        queued = ground (arith, k.places, v.inv.nonempty);
        new = view-Kept k h.inserted_nodes.size ∙ ground (arith, v.inv.nonempty);
        old = λ i p. view-Kept k i ∙ ground arith;
        known = λ i. ground (
          arith,
          S.peek_index-assign h.node_index n h.inserted_nodes.size i,
          k.node (S.peek_index h.node_index i),
          k.node h.inserted_nodes.size,
          k.nodes,
        );
      }
