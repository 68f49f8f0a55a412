-- ===== src/DataStructures/LruCache/Tests.antt =====
-- A cache of two: the use of the first key keeps it when a third comes.
use maiden.Prelude.{ℕ, ◌≡◌, refl, none, [], ◌∷◌, arith}
use maiden.DataStructures.LruCache.{LruCache, new_cache, insert, fetch}
use maiden.DataStructures.LruCache.Entries.{view, lookup, take_first, node_of, IsDistinct}
use maiden.DataStructures.LruCache.Uses.{IsCache, insert-IsCache}
use maiden.DataStructures.LruCache.Fetch.{touch, fetch-IsCache}

abbrev two_held : LruCache ℕ
two_held = insert (insert (new_cache 2) 5 50) 6 60

new-IsCache : IsCache {V = ℕ} (new_cache 2)
unfolding node_of IsDistinct
new-IsCache = record { distinct = tt; agree = λ k. refl; small = omega arith }

one-IsCache : IsCache {V = ℕ} (insert (new_cache 2) 5 50)
one-IsCache = (insert-IsCache (new_cache 2) 5 50 new-IsCache refl).0

two-IsCache : IsCache two_held
unfolding insert
two-IsCache = (insert-IsCache (insert (new_cache 2) 5 50) 6 60 one-IsCache refl).0

third_insert : view (insert (fetch two_held 5).1 7 70).items_in_cache ≡ (7, 70) ∷ (5, 50) ∷ []
unfolding insert fetch view
third_insert = refl

-- A key that is held and inserted again into a full cache is lost: its old entry is dropped, and with
-- it the place of the key.
stale_fetch : (fetch (insert two_held 5 51) 5).0 ≡ none
unfolding insert fetch
stale_fetch = refl

insert-IsCache_example :
    IsCache (insert two_held 7 70)
    × (view (insert two_held 7 70).items_in_cache
        ≡ take_first 2 ((7, 70) ∷ view two_held.items_in_cache))
unfolding insert
insert-IsCache_example = insert-IsCache two_held 7 70 two-IsCache refl

fetch-IsCache_example :
    ((fetch two_held 5).0 ≡ lookup 5 (view two_held.items_in_cache))
    × IsCache (fetch two_held 5).1
    × (view (fetch two_held 5).1.items_in_cache ≡ touch 5 (view two_held.items_in_cache))
fetch-IsCache_example = fetch-IsCache two_held 5 two-IsCache
