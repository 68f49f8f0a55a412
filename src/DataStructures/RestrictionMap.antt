-- ===== src/DataStructures/RestrictionMap.antt =====
-- osrm-backend/data_structures/restriction_map.cpp: turn restrictions, indexed by their first edge.
-- A restriction goes from a node through a via node to a node; an `is_only` one forbids all other
-- turns. Maps and sets are functions. The 64-bit ids of a restriction are cut to 32 bits.
pub mod Buckets
pub mod Build
pub mod Queries
pub mod Fixup
pub mod Arriving
mod Tests
use maiden.Typedefs.{special_nodeid}
use maiden.Prelude.{
  ℕ, ◌+◌, ◌-◌, ◌%◌, ◌^◌, Bool, true, false, not, ◌&&◌, ◌||◌, Option, none, some, List, [], ◌∷◌,
  ◌++◌, ◌==◌, if◌then◌else◌, Vector, write, resize, length,
}

pub record TurnRestriction : Type 0 where
  pub from : ℕ
  pub via : ℕ
  pub to : ℕ
  pub is_only : Bool

pub record RestrictionTarget : Type 0 where
  pub target_node : ℕ
  pub is_only : Bool

pub record RestrictionMap : Type 0 where
  pub count : ℕ
  pub start_nodes : ℕ → Bool
  pub via_nodes : ℕ → Bool
  -- RestrictionSource to the index of its bucket
  pub sources : ℕ → ℕ → Option ℕ
  pub bucket_list : Vector (List RestrictionTarget)

-- `static_cast<NodeID>`
abbrev pub node_id : ℕ → ℕ
node_id x = x % 2 ^ 32

abbrev pub add_node : (ℕ → Bool) → ℕ → ℕ → Bool
add_node s n m = if n == m then true else s m

abbrev pub is_source : ℕ → ℕ → ℕ → ℕ → Bool
is_source u v a b = (u == a) && (v == b)

abbrev pub set_source : (ℕ → ℕ → Option ℕ) → ℕ → ℕ → Option ℕ → ℕ → ℕ → Option ℕ
set_source s u v i a b = if is_source u v a b then i else s a b

-- `m_restriction_bucket_list.at(index).begin()->is_only`
abbrev pub begins_only : List RestrictionTarget → Bool
begins_only [] = false
begins_only (t ∷ b) = t.is_only

unfoldable pub empty_map : RestrictionMap
empty_map = record {
  count = 0;
  start_nodes = λ n. false;
  via_nodes = λ n. false;
  sources = λ u v. none;
  bucket_list = record { size = 0; at = λ i. [] };
}

-- The end of the constructor's loop body: the target goes behind those of its bucket.
abbrev pub append_target : RestrictionMap → ℕ → RestrictionTarget → RestrictionMap
append_target m i t = record m {
  count = m.count + 1;
  bucket_list = write m.bucket_list i (m.bucket_list.at i ++ t ∷ []);
}

abbrev pub clear_bucket : RestrictionMap → ℕ → RestrictionMap
clear_bucket m i = record m {
  count = m.count - length (m.bucket_list.at i);
  bucket_list = write m.bucket_list i [];
}

abbrev pub new_bucket : RestrictionMap → ℕ → ℕ → RestrictionMap
new_bucket m u v =
    let size = m.bucket_list.size in
    record m {
      sources = set_source m.sources u v (some size);
      bucket_list = write (resize m.bucket_list (size + 1)) size [];
    }

abbrev pub extend_bucket : RestrictionMap → ℕ → RestrictionTarget → RestrictionMap
extend_bucket m i t =
    if begins_only (m.bucket_list.at i)
    then m
    else append_target (if t.is_only then clear_bucket m i else m) i t

-- The body of the constructor's loop.
unfoldable pub add_restriction : RestrictionMap → TurnRestriction → RestrictionMap
add_restriction m r =
    let u = node_id r.from in
    let v = node_id r.via in
    let t : RestrictionTarget = record { target_node = node_id r.to; is_only = r.is_only } in
    let m' = record m {
      start_nodes = add_node m.start_nodes u;
      via_nodes = add_node m.via_nodes v;
    } in
    elim (m.sources u v) [
      | none ↦ append_target (new_bucket m' u v) m.bucket_list.size t
      | some i ↦ extend_bucket m' i t
    ]

unfoldable pub add_all : RestrictionMap → List TurnRestriction → RestrictionMap
add_all m [] = m
add_all m (r ∷ rs) = add_all (add_restriction m r) rs

-- The constructor.
unfoldable pub restriction_map : List TurnRestriction → RestrictionMap
unfolding empty_map
restriction_map rs = add_all empty_map rs

unfoldable pub is_via_node : RestrictionMap → ℕ → Bool
is_via_node m n = m.via_nodes n

unfoldable pub is_source_node : RestrictionMap → ℕ → Bool
is_source_node m n = m.start_nodes n

-- `emplace` keeps the entry that a source already has.
abbrev pub emplace : (ℕ → ℕ → Option ℕ) → ℕ → ℕ → ℕ → ℕ → ℕ → Option ℕ
emplace s u v i = elim (s u v) [ none ↦ set_source s u v (some i) | some _ ↦ s ]

unfoldable pub fixup_starting_turn_restriction : RestrictionMap → ℕ → ℕ → ℕ → RestrictionMap
unfolding is_source_node
fixup_starting_turn_restriction m u v w =
    if not (is_source_node m v) then m else elim (m.sources v w) [
      | none ↦ m
      | some i ↦ record m {
        start_nodes = add_node m.start_nodes u;
        sources = emplace (set_source m.sources v w none) u w i;
      }
    ]

unfoldable pub first_only : List RestrictionTarget → ℕ
first_only [] = special_nodeid
first_only (t ∷ b) = if t.is_only then t.target_node else first_only b

unfoldable pub check_for_emanating_is_only_turn : RestrictionMap → ℕ → ℕ → ℕ
unfolding is_source_node first_only
check_for_emanating_is_only_turn m u v =
    if not (is_source_node m u)
    then special_nodeid
    else elim (m.sources u v) [ none ↦ special_nodeid | some i ↦ first_only (m.bucket_list.at i) ]

unfoldable pub forbids : List RestrictionTarget → ℕ → Bool
forbids [] w = false
forbids (t ∷ b) w =
    if (w == t.target_node) && not t.is_only
    then true
    else if not (w == t.target_node) && t.is_only
    then true
    else forbids b w

unfoldable pub check_if_turn_is_restricted : RestrictionMap → ℕ → ℕ → ℕ → Bool
unfolding is_source_node forbids
check_if_turn_is_restricted m u v w =
    if not (is_source_node m u)
    then false
    else elim (m.sources u v) [ none ↦ false | some i ↦ forbids (m.bucket_list.at i) w ]

-- FixupArrivingTurnRestriction takes of the graph the targets of the edges at `node_u`.
unfoldable pub predecessors : List ℕ → ℕ → List ℕ
predecessors [] v = []
predecessors (x ∷ xs) v = if not (v == x) then x ∷ predecessors xs v else predecessors xs v

unfoldable pub replace_target : ℕ → ℕ → List RestrictionTarget → List RestrictionTarget
replace_target v w [] = []
replace_target v w (t ∷ b) =
    (if v == t.target_node then record t { target_node = w } else t) ∷ replace_target v w b

unfoldable pub replace_in : RestrictionMap → ℕ → ℕ → ℕ → List ℕ → RestrictionMap
unfolding replace_target
replace_in m u v w [] = m
replace_in m u v w (x ∷ xs) =
    replace_in
      (elim (m.sources x u) [
        | none ↦ m
        | some i ↦ record m {
          bucket_list = write m.bucket_list i (replace_target v w (m.bucket_list.at i));
        }
      ])
      u v w xs

unfoldable pub fixup_arriving_turn_restriction :
    RestrictionMap → ℕ → ℕ → ℕ → List ℕ → RestrictionMap
unfolding is_via_node predecessors replace_in
fixup_arriving_turn_restriction m u v w adjacent =
    if not (is_via_node m u) then m else replace_in m u v w (predecessors adjacent v)
