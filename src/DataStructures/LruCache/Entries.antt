-- ===== src/DataStructures/LruCache/Entries.antt =====
-- osrm-backend/data_structures/lru_cache.hpp: the list of entries and the position map.
use maiden.Prelude.{
  ℕ, zero, suc, ◌≤◌, ◌<◌, ◌≡◌, ◌≢◌, refl, ap, Option, none, some, List, [], ◌∷◌, length, All,
  All-imp, ◌==◌, if◌then◌else◌, arith,
}
use maiden.DataStructures.LruCache.{CacheEntry, last_entry, without_last}

module _ {ℓ} {V : Type ℓ} where
  -- What the cache has for a key: the pairs of the entries, from the last used on.
  unfoldable pub view : List (CacheEntry V) → List (ℕ × V)
  view [] = []
  view (e ∷ es) = (e.key, e.value) ∷ view es

  unfoldable pub lookup : ℕ → List (ℕ × V) → Option V
  lookup key [] = none
  lookup key ((k, v) ∷ ps) = if k == key then some v else lookup key ps

  unfoldable pub take_first : ℕ → List (ℕ × V) → List (ℕ × V)
  take_first zero ps = []
  take_first (suc n) [] = []
  take_first (suc n) (p ∷ ps) = p ∷ take_first n ps

  unfoldable pub remove_key : ℕ → List (ℕ × V) → List (ℕ × V)
  remove_key key [] = []
  remove_key key ((k, v) ∷ ps) = if k == key then ps else (k, v) ∷ remove_key key ps

  -- The first node with a key.
  unfoldable pub node_of : ℕ → List (CacheEntry V) → Option ℕ
  node_of key [] = none
  node_of key (e ∷ es) = if e.key == key then some e.node else node_of key es

  -- Entries with numbers below a bound, no two with one key or one number.
  unfoldable pub IsDistinct : ℕ → List (CacheEntry V) → Type ℓ
  IsDistinct bound [] = Unit
  IsDistinct bound (e ∷ es) =
      (e.node < bound) × All (λ x. (x.node ≢ e.node) × (x.key ≢ e.key)) es × IsDistinct bound es

  last-All :
      (P : CacheEntry V → Type 0) (e : CacheEntry V) (es : List (CacheEntry V))
      → P e
      → All P es
      → P (last_entry e es)
  unfolding last_entry
  last-All P e [] p h = p
  last-All P e (x ∷ xs) p h = last-All P x xs h.0 h.1

  without_last-All :
      (P : CacheEntry V → Type 0) (e : CacheEntry V) (es : List (CacheEntry V))
      → P e
      → All P es
      → All P (without_last e es)
  unfolding without_last
  without_last-All P e [] p h = tt
  without_last-All P e (x ∷ xs) p h = (p, without_last-All P x xs h.0 h.1)

  pub without_last-IsDistinct :
      (bound : ℕ) (e : CacheEntry V) (es : List (CacheEntry V))
      → IsDistinct bound (e ∷ es)
      → IsDistinct bound (without_last e es)
  unfolding IsDistinct without_last
  without_last-IsDistinct bound e [] h = tt
  without_last-IsDistinct bound e (x ∷ xs) (lt, apart, h) = (
    lt,
    without_last-All (λ y. (y.node ≢ e.node) × (y.key ≢ e.key)) x xs apart.0 apart.1,
    without_last-IsDistinct bound x xs h,
  )

  -- A key that no entry has.
  absent : (key : ℕ) (es : List (CacheEntry V)) → All (λ x. x.key ≢ key) es → node_of key es ≡ none
  unfolding node_of
  absent key [] h = refl
  absent key (e ∷ es) h = ground (arith, h.0, absent key es h.1)

  -- Dropping the last entry drops its key from the map, and no other.
  pub node_of-without_last :
      (bound key : ℕ) (e : CacheEntry V) (es : List (CacheEntry V))
      → IsDistinct bound (e ∷ es)
      → node_of key (without_last e es)
        ≡ (if (last_entry e es).key == key then none else node_of key (e ∷ es))
  unfolding IsDistinct node_of last_entry without_last
  node_of-without_last bound key e [] h = ground arith
  node_of-without_last bound key e (x ∷ xs) (lt, apart, h) =
      let other : (last_entry x xs).key ≢ e.key =
        last-All (λ y. y.key ≢ e.key) x xs apart.0.1 (All-imp (λ y q. q.1) xs apart.1) in
      ground (arith, node_of-without_last bound key x xs h, other)

  pub view-without_last :
      (e : CacheEntry V) (es : List (CacheEntry V)) (n : ℕ)
      → n ≡ length es
      → view (without_last e es) ≡ take_first n (view (e ∷ es))
  unfolding view take_first without_last
  view-without_last e [] zero h = refl
  view-without_last e [] (suc n) h = absurd (omega arith)
  view-without_last e (x ∷ xs) zero h = absurd (omega arith)
  view-without_last e (x ∷ xs) (suc n) h =
      ap (λ t. (e.key, e.value) ∷ t) (view-without_last x xs n (omega arith))

  pub take_first-all :
      (n : ℕ) (es : List (CacheEntry V)) → length es ≤ n → take_first n (view es) ≡ view es
  unfolding view take_first
  take_first-all zero [] h = refl
  take_first-all zero (e ∷ es) h = absurd (omega arith)
  take_first-all (suc n) [] h = refl
  take_first-all (suc n) (e ∷ es) h =
      ap (λ t. (e.key, e.value) ∷ t) (take_first-all n es (omega arith))

  pub length-without_last :
      (e : CacheEntry V) (es : List (CacheEntry V)) → length (without_last e es) ≡ length es
  unfolding without_last
  length-without_last e [] = refl
  length-without_last e (x ∷ xs) = ap suc (length-without_last x xs)
