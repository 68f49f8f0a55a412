-- ===== src/DataStructures/RestrictionMap/Arriving.antt =====
-- osrm-backend/data_structures/restriction_map.hpp: FixupArrivingTurnRestriction.
use maiden.Prelude.{
  ℕ, map, zero, suc, ◌≡◌, refl, ◌∙◌, ap, inl, inr, Bool, true, false, not, ◌&&◌, ◌||◌, none, some,
  List, [], ◌∷◌, ◌==◌, if◌then◌else◌, arith, Option-cases, write, length,
}
use maiden.DataStructures.RestrictionMap.{
  RestrictionTarget, RestrictionMap, is_source, predecessors, replace_target, replace_in,
  fixup_arriving_turn_restriction, is_via_node,
}
use maiden.DataStructures.RestrictionMap.Buckets.{IsValid, bucket, total}

-- The node is in the list.
unfoldable pub is_in : List ℕ → ℕ → Bool
is_in [] a = false
is_in (x ∷ xs) a = (x == a) || is_in xs a

length-replace_target :
    (v w : ℕ) (b : List RestrictionTarget) → length (replace_target v w b) ≡ length b
unfolding replace_target
length-replace_target v w [] = refl
length-replace_target v w (t ∷ b) = omega (arith, length-replace_target v w b)

replace_target-twice :
    (v w : ℕ) (b : List RestrictionTarget)
    → replace_target v w (replace_target v w b) ≡ replace_target v w b
unfolding replace_target
replace_target-twice v w [] = refl
replace_target-twice v w (t ∷ b) = ground (arith, replace_target-twice v w b)

total-lengths :
    (n : ℕ) (b c : ℕ → List RestrictionTarget)
    → ((j : ℕ) → length (c j) ≡ length (b j))
    → total n b ≡ total n c
unfolding total
total-lengths zero b c h = refl
total-lengths (suc n) b c h = ground (arith, total-lengths n b c h, h n)

abbrev replaced : RestrictionMap → ℕ → ℕ → ℕ → RestrictionMap
replaced m v w i = record m {
  bucket_list = write m.bucket_list i (replace_target v w (m.bucket_list.at i));
}

replaced-IsValid : (m : RestrictionMap) (v w i : ℕ) → IsValid m → IsValid (replaced m v w i)
replaced-IsValid m v w i h = record {
  inside = h.inside;
  distinct = h.distinct;
  starts = h.starts;
  filled = λ a b j e f.
      ground (arith, h.filled a b j e, ap length f, length-replace_target v w (m.bucket_list.at i));
  counted =
      h.counted
      ∙ total-lengths m.bucket_list.size m.bucket_list.at (replaced m v w i).bucket_list.at
          λ j. ground (arith, length-replace_target v w (m.bucket_list.at i));
}

-- What one predecessor changes.
abbrev replace_one : RestrictionMap → ℕ → ℕ → ℕ → ℕ → RestrictionMap
replace_one m u v w x = elim (m.sources x u) [ none ↦ m | some i ↦ replaced m v w i ]

replace_one_correct :
    (m : RestrictionMap) (u v w x a b : ℕ)
    → IsValid m
    → IsValid (replace_one m u v w x)
      × (bucket (replace_one m u v w x) a b
          ≡ (if is_source x u a b then replace_target v w (bucket m a b) else bucket m a b))
unfolding replace_target
replace_one_correct m u v w x a b h = elim (Option-cases (m.sources x u)) [
  | inl e ↦ rw (e, replace_one) (h, ground arith)
  | inr (i, e) ↦
      rw (e, replace_one) (replaced-IsValid m v w i h, ground (arith, h.distinct a b x u i))
]

replace_in-bucket :
    (m : RestrictionMap) (u v w : ℕ) (xs : List ℕ) (a b : ℕ)
    → IsValid m
    → IsValid (replace_in m u v w xs)
      × (bucket (replace_in m u v w xs) a b
          ≡ (if (u == b) && is_in xs a then replace_target v w (bucket m a b) else bucket m a b))
unfolding replace_in is_in
replace_in-bucket m u v w [] a b h = (h, ground arith)
replace_in-bucket m u v w (x ∷ xs) a b h =
    let one = replace_one_correct m u v w x a b h in
    let rest = replace_in-bucket (replace_one m u v w x) u v w xs a b one.0 in
    (rest.0, ground (arith, rest.1, one.1, replace_target-twice v w (bucket m a b)))

is_in-predecessors :
    (xs : List ℕ) (v a : ℕ) → is_in (predecessors xs v) a ≡ (is_in xs a && not (v == a))
unfolding is_in predecessors
is_in-predecessors [] v a = refl
is_in-predecessors (x ∷ xs) v a = ground (arith, is_in-predecessors xs v a)

-- A target with the node w in place of the node v, and any other target as it is.
abbrev pub redirect : ℕ → ℕ → RestrictionTarget → RestrictionTarget
redirect v w t = record {
  target_node = if t.target_node == v then w else t.target_node;
  is_only = t.is_only;
}

replace_target-map :
    (v w : ℕ) (b : List RestrictionTarget) → replace_target v w b ≡ map (redirect v w) b
unfolding replace_target
replace_target-map v w [] = refl
replace_target-map v w (t ∷ b) = ground (arith, replace_target-map v w b)

-- FixupArrivingTurnRestriction at a via node u of a valid map: in the restrictions over u that come
-- from a neighbour of u other than v, v is replaced by w as the target and nothing else changes; the
-- restrictions over u that come from v or from no neighbour, and those over other nodes, stay as they
-- are, and the map stays valid.
pub fixup_arriving_correct :
    (m : RestrictionMap) (u v w : ℕ) (adjacent : List ℕ) (a b : ℕ)
    → IsValid m
    → is_via_node m u ≡ true
    → IsValid (fixup_arriving_turn_restriction m u v w adjacent)
      × (bucket (fixup_arriving_turn_restriction m u v w adjacent) a b ≡ (
          if (u == b) && (is_in adjacent a && not (v == a))
          then map (redirect v w) (bucket m a b)
          else bucket m a b))
unfolding fixup_arriving_turn_restriction
fixup_arriving_correct m u v w adjacent a b h via =
    let r = replace_in-bucket m u v w (predecessors adjacent v) a b h in
    rw via (
      r.0,
      ground (arith, r.1, is_in-predecessors adjacent v a, replace_target-map v w (bucket m a b)),
    )
