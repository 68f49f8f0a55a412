-- ===== src/DataStructures/BinaryHeap.antt =====
-- osrm-backend/data_structures/binary_heap.hpp: an addressable binary min-heap. `heap` is the tree,
-- one-based behind a sentinel; `inserted_nodes` keeps a node's place in it, or 0 when it has left.
-- A weight is its distance from the least value of its type, so that the sentinel's is 0; only
-- comparisons are made of weights. Keys and indices stay below twice the number of insertions, and
-- do not wrap.
pub mod Storage
pub mod Links
pub mod Sift
pub mod View
pub mod Insert
pub mod Remove
pub mod Update
pub mod RemoveAll
mod Tests
use maiden.Prelude.{
  ℕ, zero, suc, ◌+◌, ◌-◌, ◌*◌, ◌/◌, ◌≡◌, Bool, true, false, ◌&&◌, ltb, leb, ◌==◌, if◌then◌else◌,
  Vector, write, push_back, pop_back, resize,
}
use Storage.{IndexStorage}

pub record HeapNode {ℓ} (D : Type ℓ) : Type ℓ where
  pub node : ℕ
  pub key : ℕ
  pub weight : ℕ
  pub payload : D

pub record HeapElement : Type 0 where
  pub index : ℕ
  pub weight : ℕ

-- The two arrays that sifting changes.
pub record Arrays {ℓ} (D : Type ℓ) : Type ℓ where
  pub inserted_nodes : Vector (HeapNode D)
  pub heap : Vector HeapElement

module _ {ℓ} {D : Type ℓ} where
  -- `inserted_nodes[i].key = k`
  abbrev pub set_key : Vector (HeapNode D) → ℕ → ℕ → Vector (HeapNode D)
  set_key nodes i k = write nodes i (record (nodes.at i) { key = k })

  -- `heap[key] = heap[nextKey]; inserted_nodes[heap[key].index].key = key;`
  unfoldable pub move : Arrays D → ℕ → ℕ → Arrays D
  move a key next = record {
    heap = write a.heap key (a.heap.at next);
    inserted_nodes = set_key a.inserted_nodes (a.heap.at next).index key;
  }

  -- The rising or dropping element comes to rest.
  unfoldable pub settle : Arrays D → ℕ → HeapElement → Arrays D
  settle a key e = record {
    heap = write a.heap key e;
    inserted_nodes = set_key a.inserted_nodes e.index key;
  }

  -- The loop of Upheap, and the key at which it stops. The fuel bounds the rounds.
  upheap_loop : ℕ → Arrays D → ℕ → ℕ → Arrays D × ℕ
  upheap_loop zero a key weight = (a, key)
  upheap_loop (suc fuel) a key weight =
      let next = key / 2 in
      let rest = upheap_loop fuel (move a key next) next weight in
      if ltb weight (a.heap.at next).weight then rest else (a, key)

  unfoldable pub upheap : Arrays D → ℕ → Arrays D
  unfolding upheap_loop move settle
  upheap a key =
      let rising = a.heap.at key in
      let (b, stop) = upheap_loop (suc key) a key rising.weight in settle b stop rising

  smaller_child : Arrays D → ℕ → ℕ
  smaller_child a next =
      if ltb (next + 1) a.heap.size && ltb (a.heap.at (next + 1)).weight (a.heap.at next).weight
      then next + 1
      else next

  downheap_loop : ℕ → Arrays D → ℕ → ℕ → Arrays D × ℕ
  downheap_loop zero a key weight = (a, key)
  downheap_loop (suc fuel) a key weight =
      let next = smaller_child a (2 * key) in
      let rest = downheap_loop fuel (move a key next) next weight in
      let go_on = if leb weight (a.heap.at next).weight then (a, key) else rest in
      if ltb (2 * key) a.heap.size then go_on else (a, key)

  unfoldable pub downheap : Arrays D → ℕ → Arrays D
  unfolding downheap_loop smaller_child move settle
  downheap a key =
      let dropping = a.heap.at key in
      let (b, stop) = downheap_loop a.heap.size a key dropping.weight in settle b stop dropping

module _ {ℓ} {D : Type ℓ} where
  -- The part of DeleteMin that changes the tree.
  unfoldable pub drop_root : Arrays D → Arrays D
  drop_root a =
      let shrunk = record a { heap = pop_back (write a.heap 1 (a.heap.at (a.heap.size - 1))) } in
      if ltb 1 shrunk.heap.size then downheap shrunk 1 else shrunk

pub record BinaryHeap {ℓ} (S : IndexStorage) (D : Type ℓ) : Type ℓ where
  pub arrays : Arrays D
  pub open arrays use *
  pub node_index : S.Store

module _ {ℓ} {D : Type ℓ} (S : IndexStorage) where
  -- Clear, which the constructor calls too.
  unfoldable pub clear : BinaryHeap S D → BinaryHeap S D
  clear h = record {
    arrays = record {
      inserted_nodes = resize h.inserted_nodes 0;
      heap = write (resize h.heap 1) 0 (record (h.heap.at 0) { weight = 0 });
    };
    node_index = S.clear h.node_index;
  }

  unfoldable pub size : BinaryHeap S D → ℕ
  size h = h.heap.size - 1

  unfoldable pub empty : BinaryHeap S D → Bool
  unfolding size
  empty h = 0 == size h

  unfoldable pub insert : BinaryHeap S D → ℕ → ℕ → D → BinaryHeap S D
  insert h node weight payload =
      let index = h.inserted_nodes.size in
      let key = h.heap.size in
      let grown : Arrays D = record {
        heap = push_back h.heap (record { index = index; weight = weight });
        inserted_nodes =
            push_back h.inserted_nodes
              (record { node = node; key = key; weight = weight; payload = payload });
      } in
      record { arrays = upheap grown key; node_index = S.assign h.node_index node index }

  unfoldable pub get_data : BinaryHeap S D → ℕ → D
  get_data h node = (h.inserted_nodes.at (S.peek_index h.node_index node)).payload

  -- `GetData(node) = payload`
  unfoldable pub set_data : BinaryHeap S D → ℕ → D → BinaryHeap S D
  set_data h node payload =
      let index = S.peek_index h.node_index node in
      let changed = record (h.inserted_nodes.at index) { payload = payload } in
      record h {
        arrays = record (h.arrays) { inserted_nodes = write h.inserted_nodes index changed };
      }

  -- GetKey goes through `operator[]`, which may add a missing node to the storage.
  unfoldable pub get_key : BinaryHeap S D → ℕ → ℕ × BinaryHeap S D
  get_key h node =
      let (index, touched) = S.index h.node_index node in
      ((h.inserted_nodes.at index).weight, record h { node_index = touched })

  unfoldable pub was_removed : BinaryHeap S D → ℕ → Bool
  was_removed h node = (h.inserted_nodes.at (S.peek_index h.node_index node)).key == 0

  unfoldable pub was_inserted : BinaryHeap S D → ℕ → Bool
  was_inserted h node =
      let index = S.peek_index h.node_index node in
      if leb h.inserted_nodes.size index then false else (h.inserted_nodes.at index).node == node

  unfoldable pub min : BinaryHeap S D → ℕ
  min h = (h.inserted_nodes.at (h.heap.at 1).index).node

  unfoldable pub min_key : BinaryHeap S D → ℕ
  min_key h = (h.heap.at 1).weight

  unfoldable pub delete_min : BinaryHeap S D → ℕ × BinaryHeap S D
  delete_min h =
      let removed = (h.heap.at 1).index in
      let a = drop_root h.arrays in
      let b = record a { inserted_nodes = set_key a.inserted_nodes removed 0 } in
      ((b.inserted_nodes.at removed).node, record h { arrays = b })

  -- The loop of DeleteAll, over the places from `k` on.
  unfoldable pub forget : ℕ → ℕ → Arrays D → Arrays D
  forget zero k a = a
  forget (suc n) k a =
      forget n (k + 1)
        (record a { inserted_nodes = set_key a.inserted_nodes (a.heap.at k).index 0 })

  unfoldable pub delete_all : BinaryHeap S D → BinaryHeap S D
  unfolding forget
  delete_all h =
      let a = forget (h.heap.size - 1) 1 h.arrays in
      let heap = write (resize a.heap 1) 0 (record (a.heap.at 0) { weight = 0 }) in
      record h { arrays = record a { heap = heap } }

  unfoldable pub decrease_key : BinaryHeap S D → ℕ → ℕ → BinaryHeap S D
  decrease_key h node weight =
      let index = S.peek_index h.node_index node in
      let key = (h.inserted_nodes.at index).key in
      let a : Arrays D = record {
        inserted_nodes =
            write h.inserted_nodes index (record (h.inserted_nodes.at index) { weight = weight });
        heap = write h.heap key (record (h.heap.at key) { weight = weight });
      } in
      record h { arrays = upheap a key }
