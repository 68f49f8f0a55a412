-- ===== src/DataStructures/CompressedEdgeContainer/Tests.antt =====
-- osrm-backend/data_structures/compressed_edge_container.cpp, on one run.
use maiden.Prelude.{◌<◌, ◌≡◌, refl, some, arith, map}
use maiden.Prelude.Int.{pos}
use maiden.DataStructures.CompressedEdgeContainer.{
  increase_free_list, append_second, allocate, push_free, new_container, compress_edge,
  serialize_internal_vector, get_first_edge_target_id, get_last_edge_source_id, Container,
}
use maiden.DataStructures.CompressedEdgeContainer.Buckets.{new_container-IsValid}
use maiden.DataStructures.CompressedEdgeContainer.Allocate.{IsFilled}
use maiden.DataStructures.CompressedEdgeContainer.Compress.{Compressed, compress_edge_correct}
use maiden.DataStructures.CompressedEdgeContainer.Serialize.{
  geometry_in_file, geometry_in_file-serialize_internal_vector,
}

-- Edge 1 with edge 2, then edge 0 with edge 1.
abbrev joined_once : Container
joined_once = compress_edge new_container 1 2 11 12 (pos 5) (pos 6)

abbrev joined_twice : Container
joined_twice = compress_edge joined_once 0 1 10 11 (pos 4) (pos 5)

new_container-IsFilled : IsFilled new_container
unfolding new_container increase_free_list
new_container-IsFilled e i p = cc

once : Compressed new_container 1 2 11 12 (pos 5) (pos 6) joined_once
once =
    compress_edge_correct new_container 1 2 11 12 (pos 5) (pos 6) new_container-IsValid
      new_container-IsFilled (λ e. omega arith)

compress_edge_correct_example : Compressed joined_once 0 1 10 11 (pos 4) (pos 5) joined_twice
compress_edge_correct_example =
    compress_edge_correct joined_once 0 1 10 11 (pos 4) (pos 5) once.valid once.filled
      (λ e. omega arith)

first_target : get_first_edge_target_id joined_twice 0 ≡ some 10
unfolding get_first_edge_target_id compress_edge new_container append_second allocate push_free
first_target = refl

last_source : get_last_edge_source_id joined_twice 0 ≡ some 11
unfolding get_last_edge_source_id compress_edge new_container append_second allocate push_free
last_source = refl

once_size : 99 < joined_once.geometries.size
unfolding compress_edge new_container append_second allocate push_free increase_free_list
once_size = omega arith

geometry_in_file-serialize_internal_vector_example :
    geometry_in_file (serialize_internal_vector joined_once) 99
    ≡ some (map (λ x. x.node) (joined_once.geometries.at 99))
geometry_in_file-serialize_internal_vector_example =
    geometry_in_file-serialize_internal_vector joined_once 99 once_size
