-- ===== src/DataStructures/RestrictionMap/Tests.antt =====
-- Runs of the restriction map on three restrictions.
use maiden.Prelude.{map, ℕ, ◌≡◌, refl, Bool, true, false, List, [], ◌∷◌, arith}
use maiden.DataStructures.RestrictionMap.{
  TurnRestriction, RestrictionMap, restriction_map, is_via_node, add_all, add_restriction,
  check_if_turn_is_restricted, check_for_emanating_is_only_turn, fixup_starting_turn_restriction,
  fixup_arriving_turn_restriction,
}
use maiden.DataStructures.RestrictionMap.Buckets.{IsValid, bucket}
use maiden.DataStructures.RestrictionMap.Build.{
  targets, only_target, effective, bucket-restriction_map,
}
use maiden.DataStructures.RestrictionMap.Queries.{
  is_forbidden, check_if_turn_is_restricted_correct, check_for_emanating_is_only_turn_correct,
}
use maiden.DataStructures.RestrictionMap.Fixup.{fixup_starting_correct}
use maiden.DataStructures.RestrictionMap.Arriving.{is_in, redirect, fixup_arriving_correct}

abbrev turn : ℕ → ℕ → ℕ → Bool → TurnRestriction
turn a b c only = record { from = a; via = b; to = c; is_only = only }

abbrev some_turns : List TurnRestriction
some_turns = turn 1 2 3 false ∷ turn 1 2 4 true ∷ turn 5 2 6 false ∷ []

turns : RestrictionMap
turns = restriction_map some_turns

only_wins : check_if_turn_is_restricted turns 1 2 3 ≡ true
unfolding turns restriction_map add_all add_restriction check_if_turn_is_restricted
only_wins = refl

turns-IsValid : IsValid turns
unfolding turns
turns-IsValid = (bucket-restriction_map some_turns 0 0).0

bucket-restriction_map_example :
    IsValid (restriction_map some_turns)
    × (bucket (restriction_map some_turns) 1 2 ≡ effective (targets some_turns 1 2))
bucket-restriction_map_example = bucket-restriction_map some_turns 1 2

check_if_turn_is_restricted_correct_example :
    check_if_turn_is_restricted (restriction_map some_turns) 1 2 3 ≡ is_forbidden some_turns 1 2 3
check_if_turn_is_restricted_correct_example = check_if_turn_is_restricted_correct some_turns 1 2 3

check_for_emanating_is_only_turn_correct_example :
    check_for_emanating_is_only_turn (restriction_map some_turns) 1 2 ≡ 4
unfolding targets only_target
check_for_emanating_is_only_turn_correct_example =
    check_for_emanating_is_only_turn_correct some_turns 1 2

fixup_starting_correct_example :
    IsValid (fixup_starting_turn_restriction turns 7 1 2)
    × (bucket (fixup_starting_turn_restriction turns 7 1 2) 7 2 ≡ bucket turns 1 2)
unfolding turns restriction_map add_all add_restriction
fixup_starting_correct_example =
    fixup_starting_correct turns 7 1 2 7 2 turns-IsValid (omega arith) refl

fixup_arriving_correct_example :
    IsValid (fixup_arriving_turn_restriction turns 2 6 8 (1 ∷ 5 ∷ 6 ∷ []))
    × (bucket (fixup_arriving_turn_restriction turns 2 6 8 (1 ∷ 5 ∷ 6 ∷ [])) 5 2
        ≡ map (redirect 6 8) (bucket turns 5 2))
unfolding turns restriction_map add_all add_restriction is_in is_via_node
fixup_arriving_correct_example =
    fixup_arriving_correct turns 2 6 8 (1 ∷ 5 ∷ 6 ∷ []) 5 2 turns-IsValid refl
