-- ===== src/DataStructures/LruCache.antt =====
-- osrm-backend/data_structures/lru_cache.hpp: the cache that drops what was used the longest ago. An
-- iterator is the number of a list node, given when the node is made; moving a node keeps it.
pub mod Entries
pub mod Uses
pub mod Fetch
mod Tests
use maiden.Prelude.{
  ℕ, zero, suc, ◌+◌, Bool, true, false, Option, none, some, List, [], ◌∷◌, length, ltb, ◌==◌,
  if◌then◌else◌,
}

pub record CacheEntry {ℓ} (V : Type ℓ) : Type ℓ where
  pub node : ℕ
  pub key : ℕ
  pub value : V

pub record LruCache {ℓ} (V : Type ℓ) : Type ℓ where
  pub capacity : ℕ
  pub items_in_cache : List (CacheEntry V)
  pub position_map : ℕ → Option ℕ
  -- The next number of a list node.
  pub next_node : ℕ

abbrev pub is_held : Option ℕ → Bool
is_held none = false
is_held (some i) = true

-- `std::unordered_map::insert`, which keeps what is there, and `erase`.
abbrev pub emplace_position : (ℕ → Option ℕ) → ℕ → ℕ → ℕ → Option ℕ
emplace_position m key node k =
    if key == k then elim (m k) [ none ↦ some node | some i ↦ some i ] else m k

abbrev pub erase_position : (ℕ → Option ℕ) → ℕ → ℕ → Option ℕ
erase_position m key k = if key == k then none else m k

module _ {ℓ} {V : Type ℓ} where
  abbrev pub new_cache : ℕ → LruCache V
  new_cache capacity = record {
    capacity = capacity;
    items_in_cache = [];
    position_map = λ key. none;
    next_node = 0;
  }

  abbrev pub holds : LruCache V → ℕ → Bool
  holds c key = is_held (c.position_map key)

  -- The last entry of a list that is not empty, and the list without it.
  unfoldable pub last_entry : CacheEntry V → List (CacheEntry V) → CacheEntry V
  last_entry e [] = e
  last_entry e (x ∷ xs) = last_entry x xs

  unfoldable pub without_last : CacheEntry V → List (CacheEntry V) → List (CacheEntry V)
  without_last e [] = []
  without_last e (x ∷ xs) = e ∷ without_last x xs

  unfoldable pub insert : LruCache V → ℕ → V → LruCache V
  unfolding last_entry without_last
  insert c key value =
      let e : CacheEntry V = record { node = c.next_node; key = key; value = value } in
      let positions = emplace_position c.position_map key c.next_node in
      if ltb c.capacity (length (e ∷ c.items_in_cache))
      then record c {
        items_in_cache = without_last e c.items_in_cache;
        position_map = erase_position positions (last_entry e c.items_in_cache).key;
        next_node = suc c.next_node;
      }
      else record c {
        items_in_cache = e ∷ c.items_in_cache;
        position_map = positions;
        next_node = suc c.next_node;
      }

  -- What an iterator points to, and the list with that node taken out.
  unfoldable pub entry_at : ℕ → List (CacheEntry V) → Option (CacheEntry V)
  entry_at i [] = none
  entry_at i (e ∷ es) = if e.node == i then some e else entry_at i es

  unfoldable pub unlink : ℕ → List (CacheEntry V) → List (CacheEntry V)
  unlink i [] = []
  unlink i (e ∷ es) = if e.node == i then es else e ∷ unlink i es

  -- Fetch: the value if the key is held, and the cache.
  unfoldable pub fetch : LruCache V → ℕ → Option V × LruCache V
  unfolding entry_at unlink
  fetch c key = elim (c.position_map key) [
    | none ↦ (none, c)
    | some i ↦ elim (entry_at i c.items_in_cache) [
      | none ↦ (none, c)
      | some e ↦ (some e.value, record c { items_in_cache = e ∷ unlink i c.items_in_cache })
    ]
  ]
