-- ===== src/RoutingAlgorithms/QueryHeap/SearchHeap.antt =====
-- osrm-backend/data_structures/search_engine_data.hpp: QueryHeap is the binary heap with a hash map
-- as its storage and a node's parent as its data. What insertions and changes in place do to the labels.
use maiden.Prelude.{
  ℕ, ◌≤◌, ◌<◌, ◌≡◌, ◌≢◌, refl, Bool, true, not, Option, none, some, ◌==◌, if◌then◌else◌, arith,
  Bool-cases, inl, inr,
}
use maiden.DataStructures.BinaryHeap.Storage.{
  map_storage, map_find, map_peek, map_index, map_find-assign, map_peek-assign,
}
use maiden.DataStructures.BinaryHeap
use maiden.DataStructures.BinaryHeap.{
  BinaryHeap, Arrays, get_data, was_removed, min_key, delete_min, delete_all, decrease_key,
  set_data, forget, set_key,
}
use maiden.DataStructures.BinaryHeap.View.{view, IsValid}
use maiden.DataStructures.BinaryHeap.Insert.{insert_correct}
use maiden.DataStructures.BinaryHeap.Update.{decrease_key_correct}
use maiden.RoutingAlgorithms.QueryHeap.{Label, update}

abbrev pub SearchHeap : Type 0
SearchHeap = BinaryHeap map_storage ℕ

abbrev pub was_inserted : SearchHeap → ℕ → Bool
was_inserted h n = BinaryHeap.was_inserted map_storage h n

abbrev pub label_at : SearchHeap → ℕ → Label
label_at h i = record {
  weight = (h.inserted_nodes.at i).weight;
  parent = (h.inserted_nodes.at i).payload;
  queued = not ((h.inserted_nodes.at i).key == 0);
}

abbrev pub label : SearchHeap → ℕ → Option Label
label h n = if was_inserted h n then some (label_at h (map_peek h.node_index n)) else none

-- The map finds each insertion, and every other one would be past the end.
pub record IsSearchHeap (h : SearchHeap) : Type 0 where
  pub valid : IsValid h
  pub found :
      (i : ℕ)
      → i < h.inserted_nodes.size
      → map_find h.node_index (h.inserted_nodes.at i).node ≡ some i

pub label-index :
    (h : SearchHeap) (n : ℕ) (l : Label)
    → label h n ≡ some l
    → (map_peek h.node_index n < h.inserted_nodes.size)
      × ((h.inserted_nodes.at (map_peek h.node_index n)).node ≡ n)
      × (label_at h (map_peek h.node_index n) ≡ l)
      × (was_inserted h n ≡ true)
unfolding BinaryHeap.was_inserted
label-index h n l e = ground arith

-- One node's label changes, in place.
pub changed :
    (h h' : SearchHeap) (n : ℕ) (l l' : Label)
    → IsSearchHeap h
    → label h n ≡ some l
    → IsValid h'
    → h'.node_index ≡ h.node_index
    → h'.inserted_nodes.size ≡ h.inserted_nodes.size
    → view h'.arrays (map_peek h.node_index n)
      ≡ record { node = n; weight = l'.weight; payload = l'.parent; queued = l'.queued }
    → ((j : ℕ) → j ≢ map_peek h.node_index n → view h'.arrays j ≡ view h.arrays j)
    → IsSearchHeap h' × ((m : ℕ) → label h' m ≡ update (label h) n l' m)
unfolding BinaryHeap.was_inserted
changed h h' n l l' v e v' same size this others =
    let at = label-index h n l e in
    let i = map_peek h.node_index n in
    (
      record {
        valid = v';
        found = λ j q. elim (Bool-cases (j == i)) [
          | inl here ↦ let same_j : j ≡ i = ground arith in ground (arith, v.found j, same_j, this)
          | inr apart ↦ ground (arith, v.found j, others j (λ b. ground arith))
        ];
      },
      λ m. elim (Bool-cases (map_peek h.node_index m == i)) [
        | inl here ↦
            let same_i : map_peek h.node_index m ≡ i = ground arith in
            ground (arith, this, same, same_i)
        | inr apart ↦ ground (arith, same, others (map_peek h.node_index m) (λ b. ground arith))
      ],
    )

pub insert-label :
    (h : SearchHeap) (n w p : ℕ)
    → IsSearchHeap h
    → label h n ≡ none
    → IsSearchHeap (BinaryHeap.insert map_storage h n w p)
      × ((m : ℕ)
          → label (BinaryHeap.insert map_storage h n w p) m
            ≡ update (label h) n (record { weight = w; parent = p; queued = true }) m)
unfolding BinaryHeap.was_inserted BinaryHeap.insert
insert-label h n w p v e =
    let size = h.inserted_nodes.size in
    let r = insert_correct map_storage h n w p v.valid (ground arith) in
    (
      record {
        valid = r.valid;
        found = λ j q. elim (Bool-cases (j == size)) [
          | inl new ↦
              let same_j : j ≡ size = ground arith in
              ground (arith, r.new, same_j, map_find-assign h.node_index n size n)
          | inr old ↦ ground (
            arith,
            r.grown,
            r.old j,
            v.found j,
            v.valid.indexed j,
            map_find-assign h.node_index n size (h.inserted_nodes.at j).node,
          )
        ];
      },
      λ m. elim (Bool-cases (n == m)) [
        | inl new ↦ ground (arith, r.new, r.grown, map_peek-assign h.node_index n size m)
        | inr old ↦ ground (
          arith,
          r.grown,
          r.known m,
          r.old (map_peek h.node_index m),
          map_peek-assign h.node_index n size m,
        )
      ],
    )

pub get_key-label :
    (h : SearchHeap) (n : ℕ) (l : Label)
    → IsSearchHeap h
    → label h n ≡ some l
    → BinaryHeap.get_key map_storage h n ≡ (l.weight, h)
unfolding BinaryHeap.get_key map_index map_peek
get_key-label h n l v e =
    let at = label-index h n l e in ground (arith, v.found (map_peek h.node_index n), at)

set_data-IsValid : (h : SearchHeap) (n p : ℕ) → IsValid h → IsValid (set_data map_storage h n p)
unfolding set_data
set_data-IsValid h n p v = record {
  inv = record {
    sentinel = v.inv.sentinel;
    nonempty = v.inv.nonempty;
    linked = λ k a b. ground (arith, v.inv.linked k);
    placed = λ i a b c. ground (arith, v.inv.placed i);
    order = v.inv.order;
  };
  indexed = λ i q. ground (arith, v.indexed i);
}

pub set_data-label :
    (h : SearchHeap) (n p : ℕ) (l : Label)
    → IsSearchHeap h
    → label h n ≡ some l
    → IsSearchHeap (set_data map_storage h n p)
      × ((m : ℕ)
          → label (set_data map_storage h n p) m ≡ update (label h) n (record l { parent = p }) m)
unfolding set_data
set_data-label h n p l v e =
    let at = label-index h n l e in
    changed h (set_data map_storage h n p) n l (record l { parent = p }) v e
      (set_data-IsValid h n p v.valid) refl refl (ground (arith, at)) (λ j d. ground arith)

pub decrease_key-label :
    (h : SearchHeap) (n w : ℕ) (l : Label)
    → IsSearchHeap h
    → label h n ≡ some l
    → l.queued ≡ true
    → w ≤ l.weight
    → IsSearchHeap (decrease_key map_storage h n w)
      × ((m : ℕ)
          → label (decrease_key map_storage h n w) m
            ≡ update (label h) n (record l { weight = w }) m)
unfolding was_removed decrease_key
decrease_key-label h n w l v e q le =
    let at = label-index h n l e in
    let r =
      decrease_key_correct map_storage h n w v.valid at.3 (ground (arith, at))
        (ground (arith, at)) in
    changed h (decrease_key map_storage h n w) n l (record l { weight = w }) v e r.valid refl r.kept
      (ground (arith, at, r.lowered)) r.others

pub queued-inside :
    (h : SearchHeap) (n : ℕ) (l : Label)
    → IsSearchHeap h
    → label h n ≡ some l
    → l.queued ≡ true
    → 1 < h.heap.size
queued-inside h n l v e q =
    let at = label-index h n l e in
    let i = map_peek h.node_index n in ground (arith, at, v.valid.inv.placed i at.0)
