-- ===== src/DataStructures/BinaryHeap/Storage.antt =====
-- osrm-backend/data_structures/binary_heap.hpp: the storages that find a node's index. Each holds
-- the index last assigned to a node; they differ in what they say of a node without one.
use maiden.Prelude.{
  ℕ, ◌-◌, ◌^◌, ◌≡◌, refl, Option, none, some, List, [], ◌∷◌, ◌==◌, if◌then◌else◌, arith,
}

pub record IndexStorage : Type 1 where
  pub Store : Type 0
  -- `storage[node] = key`
  pub assign : Store → ℕ → ℕ → Store
  pub peek_index : Store → ℕ → ℕ
  -- `storage[node]` as a value, and the storage that it leaves
  pub index : Store → ℕ → ℕ × Store
  pub clear : Store → Store
  pub peek_index-assign :
      (s : Store) (n k m : ℕ) → peek_index (assign s n k) m ≡ (if n == m then k else peek_index s m)

-- ArrayStorage: a vector of zeros, which Clear leaves as it is.
unfoldable pub array_peek : (ℕ → ℕ) → ℕ → ℕ
array_peek s n = s n

unfoldable pub array_assign : (ℕ → ℕ) → ℕ → ℕ → ℕ → ℕ
array_assign s n k m = if n == m then k else s m

pub array_peek-assign :
    (s : ℕ → ℕ) (n k m : ℕ)
    → array_peek (array_assign s n k) m ≡ (if n == m then k else array_peek s m)
unfolding array_peek array_assign
array_peek-assign s n k m = refl

abbrev pub array_storage : IndexStorage
array_storage = record {
  Store = ℕ → ℕ;
  assign = array_assign;
  peek_index = array_peek;
  index = λ s n. (array_peek s n, s);
  clear = λ s. s;
  peek_index-assign = array_peek-assign;
}

-- numeric_limits<Key>::max() of a 32-bit Key
abbrev pub no_index : ℕ
no_index = 2 ^ 32 - 1

-- MapStorage and UnorderedMapStorage: a map, with the greatest key for a node that it lacks.
unfoldable pub map_find : List (ℕ × ℕ) → ℕ → Option ℕ
map_find [] n = none
map_find ((m, k) ∷ s) n = if m == n then some k else map_find s n

unfoldable pub map_peek : List (ℕ × ℕ) → ℕ → ℕ
unfolding map_find
map_peek s n = elim (map_find s n) [ none ↦ no_index | some k ↦ k ]

unfoldable pub map_assign : List (ℕ × ℕ) → ℕ → ℕ → List (ℕ × ℕ)
map_assign [] n k = (n, k) ∷ []
map_assign ((m, j) ∷ s) n k = if m == n then (m, k) ∷ s else (m, j) ∷ map_assign s n k

-- `nodes[node]` adds a missing node with key 0.
unfoldable pub map_index : List (ℕ × ℕ) → ℕ → ℕ × List (ℕ × ℕ)
unfolding map_find map_assign
map_index s n = elim (map_find s n) [ none ↦ (0, map_assign s n 0) | some k ↦ (k, s) ]

pub map_find-assign :
    (s : List (ℕ × ℕ)) (n k m : ℕ)
    → map_find (map_assign s n k) m ≡ (if n == m then some k else map_find s m)
unfolding map_find map_assign
map_find-assign [] n k m = refl
map_find-assign ((i, j) ∷ s) n k m = ground (arith, map_find-assign s n k m)

pub map_peek-assign :
    (s : List (ℕ × ℕ)) (n k m : ℕ)
    → map_peek (map_assign s n k) m ≡ (if n == m then k else map_peek s m)
unfolding map_peek
map_peek-assign s n k m = ground (arith, map_find-assign s n k m)

abbrev pub map_storage : IndexStorage
map_storage = record {
  Store = List (ℕ × ℕ);
  assign = map_assign;
  peek_index = map_peek;
  index = map_index;
  clear = λ s. [];
  peek_index-assign = map_peek-assign;
}
