-- ===== src/DataStructures/RestrictionMap/Fixup.antt =====
-- osrm-backend/data_structures/restriction_map.cpp: FixupStartingTurnRestriction.
use mathlib.Core.Path.{subst}
use maiden.Prelude.{
  ℕ, some, sym, ap, ◌∙◌, ◌≡◌, ◌≢◌, inl, inr, none, Option, [], if◌then◌else◌, arith, Option-cases,
  Bool-cases,
}
use maiden.DataStructures.RestrictionMap.{
  RestrictionMap, is_source, add_node, set_source, emplace, fixup_starting_turn_restriction,
}
use maiden.DataStructures.RestrictionMap.Buckets.{IsValid, bucket}

-- The map with the bucket `i` of (v, w) handed to (u, w).
abbrev handed : RestrictionMap → ℕ → ℕ → ℕ → ℕ → RestrictionMap
handed m u v w i = record m {
  start_nodes = add_node m.start_nodes u;
  sources = set_source (set_source m.sources v w none) u w (some i);
}

fixup-none :
    (m : RestrictionMap) (u v w : ℕ)
    → m.sources v w ≡ none
    → fixup_starting_turn_restriction m u v w ≡ m
unfolding fixup_starting_turn_restriction
fixup-none m u v w e = elim (Bool-cases (m.start_nodes v)) [ inl s ↦ rw (s, e) | inr s ↦ rw s ]

emplace-free :
    (s : ℕ → ℕ → Option ℕ) (u v i : ℕ) → s u v ≡ none → emplace s u v i ≡ set_source s u v (some i)
emplace-free s u v i e = rw (e, emplace)

fixup-some :
    (m : RestrictionMap) (u v w i : ℕ)
    → IsValid m
    → u ≢ v
    → m.sources u w ≡ none
    → m.sources v w ≡ some i
    → fixup_starting_turn_restriction m u v w ≡ handed m u v w i
unfolding fixup_starting_turn_restriction
fixup-some m u v w i h ne free e =
    let cut = set_source m.sources v w none in
    let free' : cut u w ≡ none = ground arith in
    rw (h.starts v w i e, e)
      (ap (λ s. record m { start_nodes = add_node m.start_nodes u; sources = s })
        (emplace-free cut u w i free'))

handed-IsValid :
    (m : RestrictionMap) (u v w i : ℕ)
    → IsValid m
    → m.sources v w ≡ some i
    → IsValid (handed m u v w i)
handed-IsValid m u v w i h e = record {
  inside = λ a b j f. ground (arith, h.inside a b j, h.inside v w i);
  distinct = λ a b c d j f g.
      ground (arith, h.distinct a b c d j, h.distinct v w a b i, h.distinct v w c d i);
  starts = λ a b j f. ground (arith, h.starts a b j);
  filled = λ a b j f g. ground (arith, h.filled a b j, h.filled v w i);
  counted = h.counted;
}

handed-bucket :
    (m : RestrictionMap) (u v w i a b : ℕ)
    → m.sources v w ≡ some i
    → bucket (handed m u v w i) a b
      ≡ (if is_source u w a b then bucket m v w else if is_source v w a b then [] else bucket m a b)
handed-bucket m u v w i a b e = ground arith

unmoved :
    (m : RestrictionMap) (u v w a b : ℕ)
    → m.sources u w ≡ none
    → m.sources v w ≡ none
    → bucket m a b
      ≡ (if is_source u w a b then bucket m v w else if is_source v w a b then [] else bucket m a b)
unmoved m u v w a b free e = ground arith

-- If no restriction starts with the edge (u, w), and u is not v, FixupStartingTurnRestriction gives
-- (u, w) the targets that (v, w) had, leaves (v, w) none, and changes no other edge's; and it keeps
-- the map valid.
pub fixup_starting_correct :
    (m : RestrictionMap) (u v w a b : ℕ)
    → IsValid m
    → u ≢ v
    → m.sources u w ≡ none
    → IsValid (fixup_starting_turn_restriction m u v w)
      × (bucket (fixup_starting_turn_restriction m u v w) a b ≡ (
          if is_source u w a b
          then bucket m v w
          else if is_source v w a b
          then []
          else bucket m a b))
fixup_starting_correct m u v w a b h ne free = elim (Option-cases (m.sources v w)) [
  | inl e ↦
      let same = fixup-none m u v w e in
      (subst IsValid (sym same) h, ap (λ x. bucket x a b) same ∙ unmoved m u v w a b free e)
  | inr (i, e) ↦
      let moved = fixup-some m u v w i h ne free e in
      (
        subst IsValid (sym moved) (handed-IsValid m u v w i h e),
        ap (λ x. bucket x a b) moved ∙ handed-bucket m u v w i a b e,
      )
]
