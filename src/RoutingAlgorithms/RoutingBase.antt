-- ===== src/RoutingAlgorithms/RoutingBase.antt =====
-- osrm-backend/routing_algorithms/routing_base.hpp: the bidirectional search. An int that may be
-- negative is stored as its distance from -2^31, as in the heap; `int_offset` is the 0. Sums of
-- weights do not wrap. The searches see the heap through QueryHeap and the graph through the facade.
pub mod Labels
pub mod Step
pub mod Meetings
pub mod Advance
pub mod Loop
pub mod Path
pub mod Search
pub mod Sound
pub mod UnpackEdge
mod Tests
use maiden.Typedefs.{special_nodeid, invalid_edge_weight}
use maiden.Prelude.{
  ℕ, zero, suc, ◌+◌, ◌-◌, ◌*◌, ◌^◌, Bool, true, false, not, ◌&&◌, ◌||◌, Option, none, some, List,
  [], ◌∷◌, ◌++◌, ltb, leb, ◌==◌, if◌then◌else◌,
}
use mathlib.Core.List.{reverse}
use maiden.RoutingAlgorithms.QueryHeap.{QueryHeap}

abbrev pub int_offset : ℕ
int_offset = 2 ^ 31

-- What the searches ask of the data facade: GetAdjacentEdgeRange, GetTarget and GetEdgeData.
pub record Facade : Type 0 where
  pub adjacent : ℕ → List ℕ
  pub target : ℕ → ℕ
  pub distance : ℕ → ℕ
  pub forward : ℕ → Bool
  pub backward : ℕ → Bool
  pub shortcut : ℕ → Bool
  pub id : ℕ → ℕ

-- `forward_direction ? data.forward : data.backward`
abbrev pub flag : Facade → Bool → ℕ → Bool
flag g forward_direction e = if forward_direction then g.forward e else g.backward e

-- What a step changes besides the heap that it advances.
pub record Meeting : Type 0 where
  pub middle : ℕ
  pub upper_bound : ℕ

-- A meeting with the given sum of keys at a node, if it is shorter and not negative.
abbrev pub meet : Meeting → ℕ → ℕ → Meeting
meet b node sum =
    if ltb sum (b.upper_bound + 2 * int_offset) && leb (2 * int_offset) sum
    then record { middle = node; upper_bound = sum - 2 * int_offset }
    else b

module _ (q : QueryHeap) (g : Facade) where
  open q use {
    Heap, size, min_key, was_inserted, get_key, get_parent, insert, set_parent, decrease_key,
    delete_min, delete_all,
  }

  -- The first loop of RoutingStep: whether it returns.
  unfoldable pub is_stalled : Heap → ℕ → Bool → List ℕ → Bool
  is_stalled h key forward_direction [] = false
  is_stalled h key forward_direction (e ∷ es) =
      if flag g (not forward_direction) e
        && was_inserted h (g.target e)
        && ltb (get_key h (g.target e) + g.distance e) key
      then true
      else is_stalled h key forward_direction es

  -- The body of the second loop.
  unfoldable pub relax_edge : Heap → ℕ → ℕ → Bool → ℕ → Heap
  relax_edge h node key forward_direction e =
      let to = g.target e in
      let to_distance = key + g.distance e in
      if flag g forward_direction e
      then if not (was_inserted h to)
        then insert h to to_distance node
        else if ltb to_distance (get_key h to)
        then decrease_key (set_parent h to node) to to_distance
        else h
      else h

  unfoldable pub relax : Heap → ℕ → ℕ → Bool → List ℕ → Heap
  relax h node key forward_direction [] = h
  relax h node key forward_direction (e ∷ es) =
      relax (relax_edge h node key forward_direction e) node key forward_direction es

  -- RoutingStep advances one heap and reads the other. `min_edge_offset` is the negated offset.
  unfoldable pub routing_step : Heap → Heap → Meeting → ℕ → Bool → Bool → Heap × Meeting
  unfolding is_stalled relax
  routing_step h other b min_edge_offset forward_direction stalling =
      let popped = delete_min h in
      let node = popped.0 in
      let key = get_key popped.1 node in
      let b' = if was_inserted other node then meet b node (get_key other node + key) else b in
      let edges = g.adjacent node in
      if ltb (b'.upper_bound + int_offset + min_edge_offset) key
      then (delete_all popped.1, b')
      else if stalling && is_stalled popped.1 key forward_direction edges
      then (popped.1, b')
      else (relax popped.1 node key forward_direction edges, b')

  pub record Searches : Type 0 where
    pub forward_heap : Heap
    pub reverse_heap : Heap
    pub meeting : Meeting

  unfoldable pub forward_step : ℕ → Searches → Searches
  unfolding routing_step
  forward_step offset s =
      let r = routing_step s.forward_heap s.reverse_heap s.meeting offset true true in
      if ltb 0 (size s.forward_heap) then record s { forward_heap = r.0; meeting = r.1 } else s

  unfoldable pub reverse_step : ℕ → Searches → Searches
  unfolding routing_step
  reverse_step offset s =
      let r = routing_step s.reverse_heap s.forward_heap s.meeting offset false true in
      if ltb 0 (size s.reverse_heap) then record s { reverse_heap = r.0; meeting = r.1 } else s

  -- The loop of Search, on fuel.
  unfoldable pub search_loop : ℕ → ℕ → Searches → Searches
  unfolding forward_step reverse_step
  search_loop zero offset s = s
  search_loop (suc fuel) offset s =
      let rest = search_loop fuel offset (reverse_step offset (forward_step offset s)) in
      if ltb 0 (size s.forward_heap + size s.reverse_heap) then rest else s

  -- RetrievePackedPathFromSingleHeap, on fuel: the parents above a node.
  unfoldable pub retrieve_from_single_heap : ℕ → Heap → ℕ → List ℕ
  retrieve_from_single_heap zero h current = []
  retrieve_from_single_heap (suc fuel) h current =
      let parent = get_parent h current in
      let rest = parent ∷ retrieve_from_single_heap fuel h parent in
      if not (current == parent) then rest else []

  unfoldable pub retrieve_packed_path : ℕ → Heap → Heap → ℕ → List ℕ
  unfolding retrieve_from_single_heap
  retrieve_packed_path fuel forward_heap reverse_heap middle =
      reverse (retrieve_from_single_heap fuel forward_heap middle)
      ++ (middle ∷ retrieve_from_single_heap fuel reverse_heap middle)

  -- Search: the distance and the packed path, or `none` if the two searches did not meet. The fuels
  -- bound the rounds and the length of a path.
  unfoldable pub search : ℕ → ℕ → Heap → Heap → Option (ℕ × List ℕ)
  unfolding search_loop retrieve_packed_path
  search rounds length forward_heap reverse_heap =
      let offset = int_offset - min_key forward_heap in
      let start : Searches = record {
        forward_heap = forward_heap;
        reverse_heap = reverse_heap;
        meeting = record { middle = special_nodeid; upper_bound = invalid_edge_weight };
      } in
      let s = search_loop rounds offset start in
      if (s.meeting.upper_bound == invalid_edge_weight) || (s.meeting.middle == special_nodeid)
      then none
      else some (
        s.meeting.upper_bound,
        retrieve_packed_path length s.forward_heap s.reverse_heap s.meeting.middle,
      )
