-- ===== src/DataStructures/RestrictionMap/Queries.antt =====
-- osrm-backend/data_structures/restriction_map.cpp: the queries, against the list of restrictions
-- that the map was made of.
use maiden.Typedefs.{special_nodeid}
use maiden.Prelude.{
  ℕ, ◌≡◌, refl, ap, ◌∙◌, inl, inr, Bool, true, false, not, none, some, List, [], ◌∷◌, ◌==◌,
  if◌then◌else◌, arith, Option-cases,
}
use maiden.DataStructures.RestrictionMap.{
  TurnRestriction, RestrictionTarget, RestrictionMap, restriction_map, first_only,
  check_for_emanating_is_only_turn, forbids, check_if_turn_is_restricted,
}
use maiden.DataStructures.RestrictionMap.Buckets.{IsValid, bucket}
use maiden.DataStructures.RestrictionMap.Build.{
  targets, only_target, effective, bucket-restriction_map,
}

-- Some target is the node.
pub leads_to : List RestrictionTarget → ℕ → Bool
leads_to [] w = false
leads_to (t ∷ b) w = if w == t.target_node then true else leads_to b w

-- The turn is forbidden: the first `is_only` restriction of its source asks for another node, or
-- there is none and some restriction names the node.
pub is_forbidden : List TurnRestriction → ℕ → ℕ → ℕ → Bool
is_forbidden rs u v w = elim (only_target (targets rs u v)) [
  | none ↦ leads_to (targets rs u v) w
  | some t ↦ not (w == t.target_node)
]

plain : (b : List RestrictionTarget) (w : ℕ) → only_target b ≡ none → forbids b w ≡ leads_to b w
unfolding only_target forbids leads_to
plain [] w e = refl
plain (t ∷ b) w e = ground (arith, plain b w)

only_is_only :
    (b : List RestrictionTarget) (t : RestrictionTarget) → only_target b ≡ some t → t.is_only ≡ true
unfolding only_target
only_is_only [] t e = cc
only_is_only (x ∷ b) t e = ground (arith, only_is_only b t)

plain_first : (b : List RestrictionTarget) → only_target b ≡ none → first_only b ≡ special_nodeid
unfolding only_target first_only
plain_first [] e = refl
plain_first (t ∷ b) e = ground (arith, plain_first b)

first_only-effective :
    (b : List RestrictionTarget)
    → first_only (effective b)
      ≡ elim (only_target b) [ none ↦ special_nodeid | some t ↦ t.target_node ]
unfolding first_only effective
first_only-effective b = elim (Option-cases (only_target b)) [
  | inl e ↦ rw (e, effective) (plain_first b e)
  | inr (t, e) ↦ rw (e, effective) (ground (arith, only_is_only b t e))
]

forbids-effective :
    (b : List RestrictionTarget) (w : ℕ)
    → forbids (effective b) w
      ≡ elim (only_target b) [ none ↦ leads_to b w | some t ↦ not (w == t.target_node) ]
unfolding forbids effective
forbids-effective b w = elim (Option-cases (only_target b)) [
  | inl e ↦ rw (e, effective) (plain b w e)
  | inr (t, e) ↦ rw (e, effective) (ground (arith, only_is_only b t e))
]

-- A query sees the bucket of its source and nothing else.
pub check_if_turn_is_restricted-bucket :
    (m : RestrictionMap) (u v w : ℕ)
    → IsValid m
    → check_if_turn_is_restricted m u v w ≡ forbids (bucket m u v) w
unfolding check_if_turn_is_restricted forbids
check_if_turn_is_restricted-bucket m u v w h = elim (Option-cases (m.sources u v)) [
  | inl e ↦ ground arith
  | inr (i, e) ↦ ground (arith, h.starts u v i)
]

pub check_for_emanating_is_only_turn-bucket :
    (m : RestrictionMap) (u v : ℕ)
    → IsValid m
    → check_for_emanating_is_only_turn m u v ≡ first_only (bucket m u v)
unfolding check_for_emanating_is_only_turn first_only
check_for_emanating_is_only_turn-bucket m u v h = elim (Option-cases (m.sources u v)) [
  | inl e ↦ ground arith
  | inr (i, e) ↦ ground (arith, h.starts u v i)
]

-- CheckIfTurnIsRestricted on the map of a list of restrictions: the turn is restricted if the first
-- `is_only` restriction of the list from its first two nodes asks for another third node, or if
-- there is no such restriction and one from these nodes names the third.
pub check_if_turn_is_restricted_correct :
    (rs : List TurnRestriction) (u v w : ℕ)
    → check_if_turn_is_restricted (restriction_map rs) u v w ≡ is_forbidden rs u v w
unfolding is_forbidden
check_if_turn_is_restricted_correct rs u v w =
    let m = bucket-restriction_map rs u v in
    check_if_turn_is_restricted-bucket (restriction_map rs) u v w m.0
    ∙ ap (λ b. forbids b w) m.1
    ∙ forbids-effective (targets rs u v) w

-- CheckForEmanatingIsOnlyTurn on the map of a list of restrictions: the target of the first
-- `is_only` restriction of the list from the two nodes, or the special node if there is none, also
-- where restrictions start there that are not `is_only`.
pub check_for_emanating_is_only_turn_correct :
    (rs : List TurnRestriction) (u v : ℕ)
    → check_for_emanating_is_only_turn (restriction_map rs) u v
      ≡ elim (only_target (targets rs u v)) [ none ↦ special_nodeid | some t ↦ t.target_node ]
check_for_emanating_is_only_turn_correct rs u v =
    let m = bucket-restriction_map rs u v in
    check_for_emanating_is_only_turn-bucket (restriction_map rs) u v m.0
    ∙ ap first_only m.1
    ∙ first_only-effective (targets rs u v)
