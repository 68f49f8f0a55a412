-- ===== src/DataStructures/DynamicGraph/Tests.antt =====
-- osrm-backend/data_structures/dynamic_graph.hpp, on one run: edges out of two nodes, inserted in turn
-- so that ranges grow in place and move, and then deleted.
use maiden.Typedefs.{special_edgeid}
use maiden.Prelude.{ℕ, ◌+◌, ◌<◌, ◌≡◌, ◌≢◌, refl, arith, Vector, ltb, if◌then◌else◌}
use maiden.DataStructures.DynamicGraph.{
  find_edge_in_either_direction, dummy_target, DynamicGraph, empty_graph, insert_edge, delete_edge,
  delete_edges_to, make_room, relocate, move_edges, make_dummies, remove_from, remove_here,
}
use maiden.DataStructures.DynamicGraph.Ranges.{Owns, empty_graph-IsValid}
use maiden.DataStructures.DynamicGraph.Build.{InputEdge, build, IsSorted}
use maiden.DataStructures.DynamicGraph.Built.{Built, build_correct}
use maiden.DataStructures.DynamicGraph.Find.{IsEither, find_edge_in_either_direction_correct}
use maiden.DataStructures.DynamicGraph.Smallest.{
  smallest_from, IsSmallest, find_smallest_edge, find_smallest_edge_correct,
}
use maiden.Prelude.Int.{pos}
use maiden.DataStructures.DynamicGraph.Insert.{Inserted, insert_edge_correct}
use maiden.DataStructures.DynamicGraph.Delete.{Deleted, delete_edge_correct}
use maiden.DataStructures.DynamicGraph.DeleteTo.{Cut, delete_edges_to_correct}

abbrev start : DynamicGraph ℕ
start = empty_graph 3 (λ i. record { target = 0; payload = 0 })

abbrev one_edge : DynamicGraph ℕ
one_edge = (insert_edge start 1 2 10).1

abbrev two_edges : DynamicGraph ℕ
two_edges = (insert_edge one_edge 1 0 11).1

abbrev three_edges : DynamicGraph ℕ
three_edges = (insert_edge two_edges 1 2 12).1

nodes : three_edges.node_array.size ≡ 3
unfolding insert_edge empty_graph make_room relocate
nodes = refl

first : Inserted start 1 2 10 one_edge
unfolding empty_graph
first =
    insert_edge_correct start 1 2 10
      (empty_graph-IsValid 3 (λ i. record { target = 0; payload = 0 })) (omega arith)
      (λ e. omega arith)

second : Inserted one_edge 1 0 11 two_edges
unfolding empty_graph insert_edge
second = insert_edge_correct one_edge 1 0 11 first.valid (omega arith) (λ e. omega arith)

inside : 1 < two_edges.node_array.size
unfolding empty_graph insert_edge
inside = omega arith

insert_edge_correct_example : Inserted two_edges 1 2 12 three_edges
insert_edge_correct_example =
    insert_edge_correct two_edges 1 2 12 second.valid inside (λ e. omega arith)

third : Inserted two_edges 1 2 12 three_edges
third = insert_edge_correct two_edges 1 2 12 second.valid inside (λ e. omega arith)

still_inside : 1 < three_edges.node_array.size
unfolding empty_graph insert_edge
still_inside = omega arith

place : Owns (three_edges.node_array.at 1) 5
unfolding empty_graph insert_edge make_room relocate move_edges make_dummies
place = (omega arith, omega arith)

delete_edge_correct_example : Deleted three_edges 1 5 (delete_edge three_edges 1 5)
delete_edge_correct_example = delete_edge_correct three_edges 1 5 third.valid still_inside place

delete_edges_to_correct_example :
    Cut three_edges 1 2 (delete_edges_to three_edges 1 2).0 (delete_edges_to three_edges 1 2).1
delete_edges_to_correct_example = delete_edges_to_correct three_edges 1 2 third.valid still_inside

two_deleted : (delete_edges_to three_edges 1 2).0 ≡ 2
unfolding empty_graph insert_edge make_room relocate move_edges make_dummies delete_edges_to
    remove_from remove_here
two_deleted = refl

real : 2 < three_edges.node_array.size
unfolding empty_graph insert_edge
real = omega arith

few : three_edges.edge_list.size < special_edgeid
unfolding empty_graph insert_edge make_room relocate move_edges make_dummies
few = omega arith

find_edge_in_either_direction_correct_example :
    IsEither three_edges 2 1 (find_edge_in_either_direction three_edges 2 1)
find_edge_in_either_direction_correct_example =
    find_edge_in_either_direction_correct three_edges 2 1 third.valid real few

-- The data as the weight.
find_smallest_edge_correct_example :
    IsSmallest pos three_edges 1 2 (find_smallest_edge pos three_edges 1 2)
find_smallest_edge_correct_example = find_smallest_edge_correct pos three_edges 1 2

smallest : find_smallest_edge pos three_edges 1 2 ≡ 5
unfolding empty_graph insert_edge make_room relocate move_edges make_dummies find_smallest_edge
    smallest_from
smallest = refl

-- A list of two edges from node 0 and one from node 2.
abbrev list : Vector (InputEdge ℕ)
list = record {
  size = 3;
  at = λ i.
      if ltb i 2
      then record { source = 0; target = i + 1; payload = i }
      else record { source = 2; target = 0; payload = 7 };
}

list-IsSorted : IsSorted list
list-IsSorted i j h q = ground arith

sources : (i : ℕ) → i < 3 → (list.at i).source < 3
sources i h = ground arith

targets : (i : ℕ) → i < 3 → (list.at i).target ≢ dummy_target
targets i h e = ground arith

build_correct_example : Built 3 list (build 3 list (λ i. record { target = 5; payload = 5 }))
build_correct_example =
    build_correct 3 list (λ i. record { target = 5; payload = 5 }) list-IsSorted sources targets
