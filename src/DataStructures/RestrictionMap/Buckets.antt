-- ===== src/DataStructures/RestrictionMap/Buckets.antt =====
-- osrm-backend/data_structures/restriction_map.cpp: the buckets, and what one restriction does to
-- them.
use native.Mathlib.Numerals.{add-one}
use maiden.Prelude.{
  ℕ, zero, suc, ◌+◌, ◌≤◌, ◌<◌, ◌≡◌, refl, ap, ◌≢◌, inl, inr, Bool, true, false, none, some, List,
  [], ◌∷◌, ◌++◌, ◌==◌, if◌then◌else◌, length, length-append, arith, Option-cases, Bool-cases,
}
use maiden.DataStructures.RestrictionMap.{
  TurnRestriction, RestrictionTarget, RestrictionMap, node_id, add_node, is_source, begins_only,
  append_target, clear_bucket, new_bucket, extend_bucket, add_restriction,
}

-- The targets in the first `n` buckets.
unfoldable pub total : ℕ → (ℕ → List RestrictionTarget) → ℕ
total zero b = 0
total (suc n) b = total n b + length (b n)

-- Distinct sources have distinct buckets, a source with a bucket is a start node, and the count is
-- that of the targets in all buckets.
pub record IsValid (m : RestrictionMap) : Type 0 where
  pub inside : (u v i : ℕ) → m.sources u v ≡ some i → i < m.bucket_list.size
  pub distinct :
      (u v a b i : ℕ) → m.sources u v ≡ some i → m.sources a b ≡ some i → (u ≡ a) × (v ≡ b)
  pub starts : (u v i : ℕ) → m.sources u v ≡ some i → m.start_nodes u ≡ true
  pub filled : (u v i : ℕ) → m.sources u v ≡ some i → m.bucket_list.at i ≢ []
  pub counted : m.count ≡ total m.bucket_list.size m.bucket_list.at

-- The bucket of a source; none is as good as empty.
abbrev pub bucket : RestrictionMap → ℕ → ℕ → List RestrictionTarget
bucket m u v = elim (m.sources u v) [ none ↦ [] | some i ↦ m.bucket_list.at i ]

-- What a further target does to the bucket of its source.
unfoldable pub extend : List RestrictionTarget → RestrictionTarget → List RestrictionTarget
extend b t = if begins_only b then b else if t.is_only then t ∷ [] else b ++ t ∷ []

abbrev pub target : TurnRestriction → RestrictionTarget
target r = record { target_node = node_id r.to; is_only = r.is_only }

abbrev pub has_source : TurnRestriction → ℕ → ℕ → Bool
has_source r u v = is_source (node_id r.from) (node_id r.via) u v

total-write_above :
    (n i : ℕ) (b : ℕ → List RestrictionTarget) (x : List RestrictionTarget)
    → n ≤ i
    → total n (λ j. if i == j then x else b j) ≡ total n b
unfolding total
total-write_above zero i b x h = refl
total-write_above (suc n) i b x h = ground (arith, total-write_above n i b x)

total-write :
    (n i : ℕ) (b : ℕ → List RestrictionTarget) (x : List RestrictionTarget)
    → i < n
    → total n (λ j. if i == j then x else b j) + length (b i) ≡ total n b + length x
unfolding total
total-write zero i b x h = absurd (omega arith)
total-write (suc n) i b x h = elim (Bool-cases (i == n)) [
  | inl last ↦
      let e : i ≡ n = ground arith in
      rw last (omega (arith, total-write_above n i b x (omega arith), ap (λ k. length (b k)) e))
  | inr before ↦ rw before (omega (arith, total-write n i b x (ground arith)))
]

abbrev noted : RestrictionMap → ℕ → ℕ → RestrictionMap
noted m s w = record m {
  start_nodes = add_node m.start_nodes s;
  via_nodes = add_node m.via_nodes w;
}

abbrev Counted : RestrictionMap → Type 0
Counted m = m.count ≡ total m.bucket_list.size m.bucket_list.at

append_target-Counted :
    (m : RestrictionMap) (i : ℕ) (t : RestrictionTarget)
    → i < m.bucket_list.size
    → Counted m
    → Counted (append_target m i t)
append_target-Counted m i t h c =
    let b = m.bucket_list in
    omega (arith, total-write b.size i b.at (b.at i ++ t ∷ []) h, length-append (b.at i) (t ∷ []))

clear_bucket-Counted :
    (m : RestrictionMap) (i : ℕ) → i < m.bucket_list.size → Counted m → Counted (clear_bucket m i)
clear_bucket-Counted m i h c =
    let b = m.bucket_list in omega (arith, total-write b.size i b.at [] h)

new_bucket-Counted : (m : RestrictionMap) (u v : ℕ) → Counted m → Counted (new_bucket m u v)
unfolding total
new_bucket-Counted m u v c =
    let b = m.bucket_list in
    rw (add-one, total) (ground (arith, total-write_above b.size b.size b.at []))

extend_bucket-Counted :
    (m : RestrictionMap) (i : ℕ) (t : RestrictionTarget)
    → i < m.bucket_list.size
    → Counted m
    → Counted (extend_bucket m i t)
extend_bucket-Counted m i t h c =
    let cleared = append_target-Counted (clear_bucket m i) i t h (clear_bucket-Counted m i h c) in
    elim (begins_only (m.bucket_list.at i))
      as (λ o.
        Counted (if o then m else append_target (if t.is_only then clear_bucket m i else m) i t)) [
          | true ↦ c
          | false ↦
              elim t.is_only
                as (λ o. Counted (append_target (if o then clear_bucket m i else m) i t)) [
                  | true ↦ cleared
                  | false ↦ append_target-Counted m i t h c
                ]
        ]

-- One restriction changes the bucket of its source alone.
pub bucket-add_restriction :
    (m : RestrictionMap) (r : TurnRestriction) (u v : ℕ)
    → IsValid m
    → bucket (add_restriction m r) u v
      ≡ (if has_source r u v then extend (bucket m u v) (target r) else bucket m u v)
unfolding add_restriction extend
bucket-add_restriction m r u v h =
    elim (Option-cases (m.sources (node_id r.from) (node_id r.via))) [
      | inl new ↦ elim (Option-cases (m.sources u v)) [
        | inl none_here ↦ ground arith
        | inr (j, here) ↦ ground (arith, h.inside u v j here)
      ]
      | inr (i, old) ↦ elim (Option-cases (m.sources u v)) [
        | inl none_here ↦ ground arith
        | inr (j, here) ↦ ground (arith, h.distinct u v (node_id r.from) (node_id r.via) i)
      ]
    ]

pub add_restriction-IsValid :
    (m : RestrictionMap) (r : TurnRestriction) → IsValid m → IsValid (add_restriction m r)
unfolding add_restriction
add_restriction-IsValid m r h =
    let s = node_id r.from in
    let w = node_id r.via in
    elim (Option-cases (m.sources s w)) [
      | inl new ↦ record {
        inside = λ u v i e. ground (arith, h.inside u v i);
        distinct =
            λ u v a b i e f. ground (arith, h.distinct u v a b i, h.inside u v i, h.inside a b i);
        starts = λ u v i e. ground (arith, h.starts u v i);
        filled = λ u v i e f. ground (arith, h.filled u v i, h.inside u v i);
        counted =
            rw (new, add_restriction)
              (append_target-Counted (new_bucket (noted m s w) s w) m.bucket_list.size (target r)
                (omega arith) (new_bucket-Counted (noted m s w) s w h.counted));
      }
      | inr (i, old) ↦ record {
        inside = λ u v j e. ground (arith, h.inside u v j);
        distinct = λ u v a b j e f. ground (arith, h.distinct u v a b j);
        starts = λ u v j e. ground (arith, h.starts u v j);
        filled = λ u v j e f. ground (arith, h.filled u v j);
        counted =
            rw (old, add_restriction)
              (extend_bucket-Counted (noted m s w) i (target r) (h.inside s w i old) h.counted);
      }
    ]
