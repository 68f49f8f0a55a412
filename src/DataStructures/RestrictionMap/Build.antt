-- ===== src/DataStructures/RestrictionMap/Build.antt =====
-- osrm-backend/data_structures/restriction_map.cpp: the map of a list of restrictions, against the
-- list itself.
use maiden.Prelude.{
  ℕ, ◌≡◌, refl, ◌∙◌, inl, inr, true, false, Option, none, some, List, [], ◌∷◌, ◌++◌, if◌then◌else◌,
  arith, Bool-cases,
}
use mathlib.Core.List.{append_assoc, append-nil}
use maiden.DataStructures.RestrictionMap.{
  TurnRestriction, RestrictionTarget, RestrictionMap, begins_only, add_restriction, add_all,
  restriction_map, empty_map,
}
use maiden.DataStructures.RestrictionMap.Buckets.{
  total, IsValid, bucket, extend, target, has_source, bucket-add_restriction,
  add_restriction-IsValid,
}

-- The targets of the restrictions of one source, in the order of the list.
unfoldable pub targets : List TurnRestriction → ℕ → ℕ → List RestrictionTarget
targets [] u v = []
targets (r ∷ rs) u v = if has_source r u v then target r ∷ targets rs u v else targets rs u v

-- The first `is_only` target, if there is one.
unfoldable pub only_target : List RestrictionTarget → Option RestrictionTarget
only_target [] = none
only_target (t ∷ b) = if t.is_only then some t else only_target b

-- Of the targets of a source the first `is_only` one stays alone, if there is one.
unfoldable pub effective : List RestrictionTarget → List RestrictionTarget
unfolding only_target
effective b = elim (only_target b) [ none ↦ b | some t ↦ t ∷ [] ]

extend_all : List RestrictionTarget → List RestrictionTarget → List RestrictionTarget
extend_all b [] = b
extend_all b (t ∷ ts) = extend_all (extend b t) ts

extend_all_only :
    (t : RestrictionTarget) (b ts : List RestrictionTarget)
    → t.is_only ≡ true
    → extend_all (t ∷ b) ts ≡ t ∷ b
unfolding extend_all extend
extend_all_only t b [] h = refl
extend_all_only t b (x ∷ ts) h = ground (arith, extend_all_only t b ts h)

-- A bucket without an `is_only` target.
abbrev NoOnly : List RestrictionTarget → Type 0
NoOnly b = only_target b ≡ none

only_target-append :
    (b c : List RestrictionTarget) → NoOnly b → only_target (b ++ c) ≡ only_target c
unfolding only_target
only_target-append [] c h = refl
only_target-append (t ∷ b) c h = ground (arith, only_target-append b c)

begins_only-NoOnly : (b : List RestrictionTarget) → NoOnly b → begins_only b ≡ false
unfolding only_target
begins_only-NoOnly [] h = refl
begins_only-NoOnly (t ∷ b) h = ground arith

extend_all-effective :
    (b ts : List RestrictionTarget) → NoOnly b → extend_all b ts ≡ effective (b ++ ts)
unfolding extend_all extend effective
extend_all-effective b [] h = ground (arith, append-nil b)
extend_all-effective b (t ∷ ts) h = elim (Bool-cases t.is_only) [
  | inl only ↦
      ground (arith, extend_all_only t [] ts, only_target-append b (t ∷ ts), begins_only-NoOnly b)
  | inr plain ↦ ground (
    arith,
    begins_only-NoOnly b,
    only_target-append b (t ∷ []),
    extend_all-effective (b ++ t ∷ []) ts,
    append_assoc b (t ∷ []) ts,
  )
]

bucket-add_all :
    (m : RestrictionMap) (rs : List TurnRestriction) (u v : ℕ)
    → IsValid m
    → IsValid (add_all m rs)
      × (bucket (add_all m rs) u v ≡ extend_all (bucket m u v) (targets rs u v))
unfolding add_all extend_all targets
bucket-add_all m [] u v h = (h, refl)
bucket-add_all m (r ∷ rs) u v h =
    let rest = bucket-add_all (add_restriction m r) rs u v (add_restriction-IsValid m r h) in
    (rest.0, ground (arith, rest.1, bucket-add_restriction m r u v h))

empty_map-IsValid : IsValid empty_map
unfolding empty_map total
empty_map-IsValid = record {
  inside = λ u v i e. cc;
  distinct = λ u v a b i e f. absurd (cc e);
  starts = λ u v i e. cc;
  filled = λ u v i e f. cc;
  counted = refl;
}

-- The map of a list of restrictions is valid, and the bucket of a source has its targets in the
-- order of the list, or the first `is_only` one alone if there is one.
pub bucket-restriction_map :
    (rs : List TurnRestriction) (u v : ℕ)
    → IsValid (restriction_map rs) × (bucket (restriction_map rs) u v ≡ effective (targets rs u v))
unfolding restriction_map
bucket-restriction_map rs u v =
    let all = bucket-add_all empty_map rs u v empty_map-IsValid in
    (all.0, all.1 ∙ extend_all-effective [] (targets rs u v) (unfold only_target in refl))
