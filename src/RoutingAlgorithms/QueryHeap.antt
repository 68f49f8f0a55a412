-- ===== src/RoutingAlgorithms/QueryHeap.antt =====
-- osrm-backend/data_structures/search_engine_data.hpp: the heap of a search, as the searches see it.
-- The interface names for each node its label; Binary fills it with the addressable binary heap.
pub mod SearchHeap
pub mod Binary
use maiden.Prelude.{ℕ, ◌≤◌, ◌<◌, ◌≡◌, Bool, true, false, Option, none, some, ◌==◌, if◌then◌else◌}

-- A node's weight, its parent (HeapData), and whether it waits in the heap.
pub record Label : Type 0 where
  pub weight : ℕ
  pub parent : ℕ
  pub queued : Bool

abbrev pub is_some {ℓ} : {A : Type ℓ} → Option A → Bool
is_some none = false
is_some (some x) = true

abbrev pub leave : Label → Label
leave l = record l { queued = false }

abbrev pub unqueue : Option Label → Option Label
unqueue none = none
unqueue (some l) = some (leave l)

-- Labels with the one of `n` replaced.
abbrev pub update : (ℕ → Option Label) → ℕ → Label → ℕ → Option Label
update f n l m = if n == m then some l else f m

-- What DeleteMin does to the labels.
pub record Popped (labels : ℕ → Option Label) (n : ℕ) (labels' : ℕ → Option Label) : Type 0 where
  pub label : Label
  pub held : labels n ≡ some label
  pub queued : label.queued ≡ true
  pub least : (m : ℕ) (l : Label) → labels m ≡ some l → l.queued ≡ true → label.weight ≤ l.weight
  pub after : (m : ℕ) → labels' m ≡ update labels n (leave label) m

pub record QueryHeap : Type 1 where
  pub Heap : Type 0
  pub IsHeap : Heap → Type 0
  pub label : Heap → ℕ → Option Label
  pub size : Heap → ℕ
  pub min_key : Heap → ℕ
  pub was_inserted : Heap → ℕ → Bool
  pub get_key : Heap → ℕ → ℕ
  pub get_parent : Heap → ℕ → ℕ
  pub insert : Heap → ℕ → ℕ → ℕ → Heap
  -- `GetData(node).parent = parent`
  pub set_parent : Heap → ℕ → ℕ → Heap
  pub decrease_key : Heap → ℕ → ℕ → Heap
  pub delete_min : Heap → ℕ × Heap
  pub delete_all : Heap → Heap
  pub was_inserted-label : (h : Heap) (n : ℕ) → was_inserted h n ≡ is_some (label h n)
  pub get_key-label :
      (h : Heap) (n : ℕ) (l : Label) → IsHeap h → label h n ≡ some l → get_key h n ≡ l.weight
  pub get_parent-label :
      (h : Heap) (n : ℕ) (l : Label) → label h n ≡ some l → get_parent h n ≡ l.parent
  pub min_key-label :
      (h : Heap) (n : ℕ) (l : Label)
      → IsHeap h
      → label h n ≡ some l
      → l.queued ≡ true
      → min_key h ≤ l.weight
  pub size-label :
      (h : Heap) (n : ℕ) (l : Label) → IsHeap h → size h ≡ 0 → label h n ≡ some l → l.queued ≡ false
  pub insert-label :
      (h : Heap) (n w p : ℕ)
      → IsHeap h
      → label h n ≡ none
      → IsHeap (insert h n w p)
        × ((m : ℕ)
            → label (insert h n w p) m
              ≡ update (label h) n (record { weight = w; parent = p; queued = true }) m)
  pub set_parent-label :
      (h : Heap) (n p : ℕ) (l : Label)
      → IsHeap h
      → label h n ≡ some l
      → IsHeap (set_parent h n p)
        × ((m : ℕ) → label (set_parent h n p) m ≡ update (label h) n (record l { parent = p }) m)
  pub decrease_key-label :
      (h : Heap) (n w : ℕ) (l : Label)
      → IsHeap h
      → label h n ≡ some l
      → l.queued ≡ true
      → w ≤ l.weight
      → IsHeap (decrease_key h n w)
        × ((m : ℕ) → label (decrease_key h n w) m ≡ update (label h) n (record l { weight = w }) m)
  pub delete_min-label :
      (h : Heap)
      → IsHeap h
      → 0 < size h
      → IsHeap (delete_min h).1 × Popped (label h) (delete_min h).0 (label (delete_min h).1)
  pub delete_all-label :
      (h : Heap)
      → IsHeap h
      → IsHeap (delete_all h)
        × (size (delete_all h) ≡ 0)
        × ((m : ℕ) → label (delete_all h) m ≡ unqueue (label h m))
