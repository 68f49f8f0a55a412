-- ===== src/RoutingAlgorithms/QueryHeap/Binary.antt =====
-- osrm-backend/data_structures/search_engine_data.hpp: what removals do to the labels, and the heap of
-- a search as the interface has it.
use mathlib.Core.Path.{subst}
use maiden.Prelude.{
  ℕ, zero, suc, ◌+◌, ◌-◌, ◌≤◌, ◌<◌, ◌≡◌, refl, sym, ap, ◌∙◌, true, false, none, some, arith,
  Bool-cases, inl, inr,
}
use maiden.DataStructures.BinaryHeap.Storage.{map_storage, map_peek}
use maiden.DataStructures.BinaryHeap
use maiden.DataStructures.BinaryHeap.{
  BinaryHeap, Arrays, get_data, was_removed, min_key, delete_min, delete_all, decrease_key,
  set_data, forget, set_key,
}
use maiden.DataStructures.BinaryHeap.Insert.{clear_correct}
use maiden.DataStructures.BinaryHeap.Remove.{delete_min_correct}
use maiden.DataStructures.BinaryHeap.RemoveAll.{delete_all_correct}
use maiden.RoutingAlgorithms.QueryHeap.{Label, QueryHeap, Popped, is_some, leave, unqueue}
use maiden.RoutingAlgorithms.QueryHeap.SearchHeap.{
  SearchHeap, was_inserted, label_at, label, IsSearchHeap, label-index, changed, insert-label,
  get_key-label, set_data-label, decrease_key-label, queued-inside,
}

pub min_key-label :
    (h : SearchHeap) (n : ℕ) (l : Label)
    → IsSearchHeap h
    → label h n ≡ some l
    → l.queued ≡ true
    → min_key map_storage h ≤ l.weight
unfolding min_key BinaryHeap.empty
min_key-label h n l v e q =
    let at = label-index h n l e in
    let inside = queued-inside h n l v e q in
    let r = delete_min_correct map_storage h v.valid (ground arith) in
    let top = v.valid.inv.linked 1 (omega arith) inside in
    ground (arith, at, top, r.least (map_peek h.node_index n) at.0)

pub size-label :
    (h : SearchHeap) (n : ℕ) (l : Label)
    → IsSearchHeap h
    → BinaryHeap.size map_storage h ≡ 0
    → label h n ≡ some l
    → l.queued ≡ false
unfolding BinaryHeap.size
size-label h n l v s e = elim (Bool-cases l.queued) [
  | inl q ↦ absurd (omega (arith, queued-inside h n l v e q))
  | inr q ↦ q
]

delete_min-index : (h : SearchHeap) → (delete_min map_storage h).1.node_index ≡ h.node_index
unfolding delete_min
delete_min-index h = refl

pub known-label : (h : SearchHeap) (n : ℕ) → was_inserted h n ≡ is_some (label h n)
known-label h n = ground arith

pub parent-label :
    (h : SearchHeap) (n : ℕ) (l : Label) → label h n ≡ some l → get_data map_storage h n ≡ l.parent
unfolding get_data
parent-label h n l e = ground (arith, label-index h n l e)

pub delete_min-label :
    (h : SearchHeap)
    → IsSearchHeap h
    → 0 < BinaryHeap.size map_storage h
    → IsSearchHeap (delete_min map_storage h).1
      × Popped (label h) (delete_min map_storage h).0 (label (delete_min map_storage h).1)
unfolding BinaryHeap.size BinaryHeap.empty BinaryHeap.was_inserted
delete_min-label h v s =
    let r = delete_min_correct map_storage h v.valid (ground arith) in
    let i = (h.heap.at 1).index in
    let n = (h.inserted_nodes.at i).node in
    let place : map_peek h.node_index n ≡ i = v.valid.indexed i r.inside in
    let l = label_at h i in
    let held : label h n ≡ some l = ground (arith, place, r.inside) in
    let c =
      changed h (delete_min map_storage h).1 n l (leave l) v held r.valid (delete_min-index h)
        r.kept (ground (arith, place, r.leaves)) (λ j d. r.others j (λ e. d (e ∙ sym place))) in
    (
      c.0,
      subst (λ k. Popped (label h) k (label (delete_min map_storage h).1)) (sym r.returned)
          (record {
            label = l;
            held = held;
            queued = r.was_queued;
            least = λ m k e q.
                let at = label-index h m k e in
                ground (arith, at, r.least (map_peek h.node_index m) at.0);
            after = c.1;
          }),
    )

forget-size :
    (n k : ℕ) (a : Arrays ℕ)
    → (forget map_storage n k a).inserted_nodes.size ≡ a.inserted_nodes.size
unfolding forget
forget-size zero k a = refl
forget-size (suc n) k a =
    forget-size n (k + 1)
      (record a { inserted_nodes = set_key a.inserted_nodes (a.heap.at k).index 0 })

delete_all-kept :
    (h : SearchHeap)
    → ((delete_all map_storage h).node_index ≡ h.node_index)
      × ((delete_all map_storage h).inserted_nodes.size ≡ h.inserted_nodes.size)
unfolding delete_all
delete_all-kept h = (refl, forget-size (h.heap.size - 1) 1 h.arrays)

pub delete_all-label :
    (h : SearchHeap)
    → IsSearchHeap h
    → IsSearchHeap (delete_all map_storage h)
      × (BinaryHeap.size map_storage (delete_all map_storage h) ≡ 0)
      × ((m : ℕ) → label (delete_all map_storage h) m ≡ unqueue (label h m))
unfolding BinaryHeap.size BinaryHeap.empty BinaryHeap.was_inserted
delete_all-label h v =
    let r = delete_all_correct map_storage h v.valid in
    let k = delete_all-kept h in
    (
      record { valid = r.0; found = λ j q. ground (arith, k, r.2 j, v.found j) },
      ground (arith, r.1),
      λ m. ground (arith, k, r.2 (map_peek h.node_index m)),
    )

-- The heap of a search.
abbrev pub query_heap : QueryHeap
query_heap = record {
  Heap = SearchHeap;
  IsHeap = IsSearchHeap;
  label = label;
  size = BinaryHeap.size map_storage;
  min_key = min_key map_storage;
  was_inserted = was_inserted;
  get_key = λ h n. (BinaryHeap.get_key map_storage h n).0;
  get_parent = get_data map_storage;
  insert = BinaryHeap.insert map_storage;
  set_parent = set_data map_storage;
  decrease_key = decrease_key map_storage;
  delete_min = delete_min map_storage;
  delete_all = delete_all map_storage;
  was_inserted-label = known-label;
  get_key-label = λ h n l v e. ap (λ r. r.0) (get_key-label h n l v e);
  get_parent-label = parent-label;
  min_key-label = min_key-label;
  size-label = size-label;
  insert-label = insert-label;
  set_parent-label = set_data-label;
  decrease_key-label = decrease_key-label;
  delete_min-label = delete_min-label;
  delete_all-label = delete_all-label;
}

-- A cleared heap is valid and labels no node.
pub clear-label :
    (h : SearchHeap)
    → IsSearchHeap (BinaryHeap.clear map_storage h)
      × ((n : ℕ) → label (BinaryHeap.clear map_storage h) n ≡ none)
unfolding BinaryHeap.clear
clear-label h =
    let r = clear_correct map_storage h in
    (record { valid = r.0; found = λ i q. absurd (omega arith) }, λ n. ground (arith, r.2 n))
