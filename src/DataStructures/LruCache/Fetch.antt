-- ===== src/DataStructures/LruCache/Fetch.antt =====
-- osrm-backend/data_structures/lru_cache.hpp: Fetch against the list of pairs.
use mathlib.Core.Path.{subst}
use maiden.Prelude.{
  ℕ, suc, ◌≡◌, ◌≢◌, refl, sym, ap, ◌∙◌, true, false, none, some, List, [], ◌∷◌, length, All, ◌==◌,
  arith, Bool-cases, Option-cases, inl, inr,
}
use maiden.DataStructures.LruCache.{CacheEntry, LruCache, entry_at, unlink, fetch}
use maiden.DataStructures.LruCache.Entries.{view, lookup, remove_key, node_of, IsDistinct}
use maiden.DataStructures.LruCache.Uses.{IsCache}

module _ {ℓ} {V : Type ℓ} where
  -- The pairs after a use of a key: its pair moves to the front.
  unfoldable pub touch : ℕ → List (ℕ × V) → List (ℕ × V)
  touch key ps = elim (lookup key ps) [ none ↦ ps | some v ↦ (key, v) ∷ remove_key key ps ]

  entry_at-All :
      (P : CacheEntry V → Type 0) (i : ℕ) (e : CacheEntry V) (es : List (CacheEntry V))
      → All P es
      → entry_at i es ≡ some e
      → P e
  unfolding entry_at
  entry_at-All P i e [] h at = absurd (ground arith)
  entry_at-All P i e (x ∷ xs) h at = elim (Bool-cases (x.node == i)) [
    | inl here ↦ let same : x ≡ e = ground (arith, at) in subst P same h.0
    | inr there ↦ entry_at-All P i e xs h.1 (ground (arith, at))
  ]

  unlink-All :
      (P : CacheEntry V → Type 0) (i : ℕ) (es : List (CacheEntry V))
      → All P es
      → All P (unlink i es)
  unfolding unlink
  unlink-All P i [] h = tt
  unlink-All P i (x ∷ xs) h = elim (Bool-cases (x.node == i)) [
    | inl here ↦ rw here h.1
    | inr there ↦ rw there (h.0, unlink-All P i xs h.1)
  ]

  -- A key that the list does not have.
  lookup-none :
      (key : ℕ) (es : List (CacheEntry V)) → node_of key es ≡ none → lookup key (view es) ≡ none
  unfolding node_of lookup view
  lookup-none key [] h = refl
  lookup-none key (e ∷ es) h = ground (arith, lookup-none key es)

  -- What a list has for the number that the map gives for a key.
  record Found (bound key i : ℕ) (es : List (CacheEntry V)) (e : CacheEntry V) : Type ℓ where
    at : entry_at i es ≡ some e
    node : e.node ≡ i
    key_of : e.key ≡ key
    looked : lookup key (view es) ≡ some e.value
    rest : view (unlink i es) ≡ remove_key key (view es)
    distinct : IsDistinct bound (e ∷ unlink i es)
    same : (k : ℕ) → node_of k (e ∷ unlink i es) ≡ node_of k es
    size : suc (length (unlink i es)) ≡ length es

  find_Found :
      (bound key i : ℕ) (es : List (CacheEntry V))
      → IsDistinct bound es
      → node_of key es ≡ some i
      → (e : CacheEntry V) × Found bound key i es e
  unfolding node_of lookup view remove_key entry_at unlink IsDistinct
  find_Found bound key i [] d h = absurd (ground arith)
  find_Found bound key i (x ∷ xs) (lt, apart, d) h = elim (Bool-cases (x.key == key)) [
    | inl here ↦
        let own : x.node ≡ i = ground (arith, h) in
        let hit : (x.node == i) ≡ true = ground arith in
        (
          x,
          record {
            at = rw hit refl;
            node = own;
            key_of = ground arith;
            looked = rw here refl;
            rest = rw (here, hit) refl;
            distinct = rw hit (lt, apart, d);
            same = λ k. rw hit refl;
            size = rw hit refl;
          },
        )
    | inr there ↦
        let (e, f) = find_Found bound key i xs d (ground (arith, h)) in
        let off = entry_at-All (λ y. (y.node ≢ x.node) × (y.key ≢ x.key)) i e xs apart f.at in
        let miss : (x.node == i) ≡ false = ground (arith, off, f.node) in
        (
          e,
          record {
            at = rw miss f.at;
            node = f.node;
            key_of = f.key_of;
            looked = rw there f.looked;
            rest = rw (there, miss) (ap (λ t. (x.key, x.value) ∷ t) f.rest);
            distinct = rw miss (
              f.distinct.0,
              ((λ q. off.0 (sym q), λ q. off.1 (sym q)), f.distinct.1),
              (lt, unlink-All (λ y. (y.node ≢ x.node) × (y.key ≢ x.key)) i xs apart, f.distinct.2),
            );
            same = λ k. ground (arith, miss, f.same k, off);
            size = rw miss (ap suc f.size);
          },
        )
  ]

  -- From a well-formed cache, Fetch gives the value of the key's pair, if there is one, and makes a
  -- well-formed cache with this pair in front of the others.
  pub fetch-IsCache :
      (c : LruCache V) (key : ℕ)
      → IsCache c
      → ((fetch c key).0 ≡ lookup key (view c.items_in_cache))
        × IsCache (fetch c key).1
        × (view (fetch c key).1.items_in_cache ≡ touch key (view c.items_in_cache))
  unfolding fetch touch view
  fetch-IsCache c key h = elim (Option-cases (c.position_map key)) [
    | inl unheld ↦
        let gone = lookup-none key c.items_in_cache (sym (h.agree key) ∙ unheld) in
        rw (unheld, gone, fetch, touch) (refl, h, refl)
    | inr (i, held) ↦
        let (e, f) =
          find_Found c.next_node key i c.items_in_cache h.distinct (sym (h.agree key) ∙ held) in
        rw (held, f.at, f.looked, fetch, touch)
          (
            refl,
            record {
              distinct = f.distinct;
              agree = λ k. h.agree k ∙ sym (f.same k);
              small = omega (arith, h.small, f.size);
            },
            ap (λ k. (k, e.value) ∷ view (unlink i c.items_in_cache)) f.key_of
                ∙ ap (λ t. (key, e.value) ∷ t) f.rest,
          )
  ]
