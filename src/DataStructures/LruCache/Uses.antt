-- ===== src/DataStructures/LruCache/Uses.antt =====
-- osrm-backend/data_structures/lru_cache.hpp: Insert and Fetch against the list of pairs from the last
-- used on.
use maiden.Prelude.{
  ℕ, suc, ◌≤◌, ◌≡◌, ◌≢◌, refl, sym, ap, ◌∙◌, false, none, List, [], ◌∷◌, length, All, All-imp, ltb,
  ◌==◌, arith, Bool-cases, inl, inr,
}
use maiden.DataStructures.LruCache.{CacheEntry, LruCache, holds, emplace_position, insert}
use maiden.DataStructures.LruCache.Entries.{
  view, take_first, node_of, IsDistinct, without_last-IsDistinct, node_of-without_last,
  view-without_last, length-without_last, take_first-all,
}

module _ {ℓ} {V : Type ℓ} where
  -- The map finds the node of each key, and the list is within the capacity.
  pub record IsCache (c : LruCache V) : Type ℓ where
    pub distinct : IsDistinct c.next_node c.items_in_cache
    pub agree : (k : ℕ) → c.position_map k ≡ node_of k c.items_in_cache
    pub small : length c.items_in_cache ≤ c.capacity

  IsDistinct-suc :
      (bound : ℕ) (es : List (CacheEntry V)) → IsDistinct bound es → IsDistinct (suc bound) es
  unfolding IsDistinct
  IsDistinct-suc bound [] h = tt
  IsDistinct-suc bound (e ∷ es) (lt, apart, h) = (omega arith, apart, IsDistinct-suc bound es h)

  -- An entry that is new to the list.
  fresh_entry :
      (bound key : ℕ) (es : List (CacheEntry V))
      → IsDistinct bound es
      → node_of key es ≡ none
      → All (λ x. (x.node ≢ bound) × (x.key ≢ key)) es
  unfolding IsDistinct node_of
  fresh_entry bound key [] h free = tt
  fresh_entry bound key (e ∷ es) (lt, apart, h) free = elim (Bool-cases (e.key == key)) [
    | inl same ↦ absurd (ground (arith, free))
    | inr other ↦ (
      (λ same. absurd (omega arith), λ same. absurd (ground arith)),
      fresh_entry bound key es h (ground (arith, free)),
    )
  ]

  grown-IsDistinct :
      (e : CacheEntry V) (c : LruCache V)
      → IsCache c
      → e.node ≡ c.next_node
      → All (λ x. (x.node ≢ c.next_node) × (x.key ≢ e.key)) c.items_in_cache
      → IsDistinct (suc c.next_node) (e ∷ c.items_in_cache)
  unfolding IsDistinct
  grown-IsDistinct e c h at new = (
    omega arith,
    All-imp (λ x q. (λ same. q.0 (same ∙ at), q.1)) c.items_in_cache new,
    IsDistinct-suc c.next_node c.items_in_cache h.distinct,
  )

  -- The map with a new key agrees with the list with its entry.
  added-node_of :
      (e : CacheEntry V) (c : LruCache V)
      → IsCache c
      → c.position_map e.key ≡ none
      → (k : ℕ) → emplace_position c.position_map e.key e.node k ≡ node_of k (e ∷ c.items_in_cache)
  unfolding node_of
  added-node_of e c h unmapped k = elim (Bool-cases (e.key == k)) [
    | inl same ↦
        let at : e.key ≡ k = ground arith in
        let free : c.position_map k ≡ none = sym (ap c.position_map at) ∙ unmapped in
        rw (same, free) refl
    | inr other ↦ rw other (h.agree k)
  ]

  -- From a cache that is well formed and does not hold the key, Insert makes a well-formed cache whose
  -- pairs are the new one and those before it, as far as the capacity goes.
  pub insert-IsCache :
      (c : LruCache V) (key : ℕ) (value : V)
      → IsCache c
      → holds c key ≡ false
      → IsCache (insert c key value)
        × (view (insert c key value).items_in_cache
            ≡ take_first c.capacity ((key, value) ∷ view c.items_in_cache))
  unfolding insert view
  insert-IsCache c key value h free =
      let e : CacheEntry V = record { node = c.next_node; key = key; value = value } in
      let unmapped : c.position_map key ≡ none = ground (arith, free) in
      let new =
        fresh_entry c.next_node key c.items_in_cache h.distinct (sym (h.agree key) ∙ unmapped) in
      let d = grown-IsDistinct e c h refl new in
      let agree : (k : ℕ)
          → emplace_position c.position_map key c.next_node k ≡ node_of k (e ∷ c.items_in_cache) =
        added-node_of e c h unmapped in
      elim (Bool-cases (ltb c.capacity (length (e ∷ c.items_in_cache)))) [
        | inl full ↦ rw full (
          record {
            distinct = without_last-IsDistinct (suc c.next_node) e c.items_in_cache d;
            agree = λ k.
                ground
                  (arith, agree k, node_of-without_last (suc c.next_node) k e c.items_in_cache d);
            small = omega (arith, h.small, length-without_last e c.items_in_cache);
          },
          view-without_last e c.items_in_cache c.capacity (ground (arith, h.small)),
        )
        | inr room ↦ rw room (
          record { distinct = d; agree = agree; small = ground arith },
          sym (take_first-all c.capacity (e ∷ c.items_in_cache) (ground arith)),
        )
      ]
