-- ===== src/DataStructures/CompressedEdgeContainer.antt =====
-- osrm-backend/data_structures/compressed_edge_container.cpp: the geometries of edges that the
-- graph compressor has joined. Each edge with a geometry has a bucket, found through a map; buckets
-- that are not in use are on a free list, whose last entry stands first here.
-- The 32-bit ids and sizes do not wrap below 2^32 buckets.
pub mod Buckets
pub mod Allocate
pub mod Compress
pub mod Serialize
mod Tests
use maiden.Prelude.{
  ℕ, zero, suc, ◌+◌, ◌-◌, Bool, true, false, Option, none, some, List, [], ◌∷◌, ◌++◌, leb, ◌==◌,
  if◌then◌else◌, Vector, write, length, map,
}
use maiden.Prelude.Int.{ℤ}

-- A node and the weight of the edge that leads to it.
pub record CompressedNode : Type 0 where
  pub node : ℕ
  pub weight : ℤ

pub record Container : Type 0 where
  pub free_list_maximum : ℕ
  pub geometries : Vector (List CompressedNode)
  pub free_list : List ℕ
  pub index_map : ℕ → Option ℕ

-- The loop of IncreaseFreeList.
unfoldable pub push_free : ℕ → List ℕ → ℕ → List ℕ
push_free zero l m = l
push_free (suc n) l m = push_free n (m ∷ l) (m + 1)

unfoldable pub increase_free_list : Container → Container
unfolding push_free
increase_free_list c = record c {
  free_list_maximum = c.free_list_maximum + 100;
  geometries = record {
    size = c.geometries.size + 100;
    at = λ i. if leb c.geometries.size i then [] else c.geometries.at i;
  };
  free_list = push_free 100 c.free_list c.free_list_maximum;
}

unfoldable pub new_container : Container
unfolding increase_free_list
new_container = increase_free_list (record {
  free_list_maximum = 0;
  geometries = record { size = 0; at = λ i. [] };
  free_list = [];
  index_map = λ e. none;
})

unfoldable pub has_entry_for_id : Container → ℕ → Bool
has_entry_for_id c e = elim (c.index_map e) [ none ↦ false | some _ ↦ true ]

-- `none` is the missing entry that the assertion excludes.
unfoldable pub get_position_for_id : Container → ℕ → Option ℕ
get_position_for_id c e = c.index_map e

abbrev pub set_entry : (ℕ → Option ℕ) → ℕ → Option ℕ → ℕ → Option ℕ
set_entry m e i f = if e == f then i else m f

-- The last free bucket goes to the edge.
abbrev pub take_free : Container → ℕ → List ℕ → Container
take_free c e [] = c
take_free c e (i ∷ l) = record c { free_list = l; index_map = set_entry c.index_map e (some i) }

-- The free list is filled first if it is empty.
abbrev pub pick : Container → ℕ → List ℕ → Container
pick c e [] = take_free (increase_free_list c) e (increase_free_list c).free_list
pick c e (i ∷ l) = take_free c e (i ∷ l)

-- The edge gets a bucket if it has none.
unfoldable pub allocate : Container → ℕ → Container
allocate c e = elim (c.index_map e) [ some _ ↦ c | none ↦ pick c e c.free_list ]

abbrev pub start_bucket : List CompressedNode → ℕ → ℤ → List CompressedNode
start_bucket [] via w = record { node = via; weight = w } ∷ []
start_bucket (x ∷ b) via w = x ∷ b

-- The second edge's part goes behind the first bucket `i`.
unfoldable pub append_second : Container → ℕ → ℕ → ℕ → ℤ → Container
append_second c i e target w = elim (c.index_map e) [
  | some j ↦ record c {
    geometries = write (write c.geometries i (c.geometries.at i ++ c.geometries.at j)) j [];
    index_map = set_entry c.index_map e none;
    free_list = j ∷ c.free_list;
  }
  | none ↦ record c {
    geometries =
        write c.geometries i (c.geometries.at i ++ record { node = target; weight = w } ∷ []);
  }
]

unfoldable pub compress_edge : Container → ℕ → ℕ → ℕ → ℕ → ℤ → ℤ → Container
compress_edge c e1 e2 via target w1 w2 =
    let d = allocate c e1 in
    elim (d.index_map e1) [
      | none ↦ d
      | some i ↦
          append_second
            (record d {
              geometries = write d.geometries i (start_bucket (d.geometries.at i) via w1);
            })
            i e2 target w2
    ]

-- `at` throws on a missing edge.
unfoldable pub get_bucket_reference : Container → ℕ → Option (List CompressedNode)
get_bucket_reference c e = elim (c.index_map e) [
  | none ↦ none
  | some i ↦ if leb c.geometries.size i then none else some (c.geometries.at i)
]

abbrev pub front_node : List CompressedNode → Option ℕ
front_node [] = none
front_node (x ∷ b) = some x.node

-- The node of the last entry but one.
abbrev pub last_but_one : List CompressedNode → Option ℕ
last_but_one [] = none
last_but_one (x ∷ []) = none
last_but_one (x ∷ y ∷ []) = some x.node
last_but_one (x ∷ y ∷ z ∷ b) = last_but_one (y ∷ z ∷ b)

unfoldable pub get_first_edge_target_id : Container → ℕ → Option ℕ
unfolding get_bucket_reference
get_first_edge_target_id c e = elim (get_bucket_reference c e) [
  | none ↦ none
  | some b ↦ front_node b
]

unfoldable pub get_last_edge_source_id : Container → ℕ → Option ℕ
unfolding get_bucket_reference
get_last_edge_source_id c e = elim (get_bucket_reference c e) [
  | none ↦ none
  | some b ↦ last_but_one b
]

-- The index array: where the entries of each of `n` buckets from the `i`th begin, and their end.
unfoldable pub indices : ℕ → ℕ → (ℕ → List CompressedNode) → ℕ → List ℕ
indices zero i b sum = sum ∷ []
indices (suc n) i b sum = sum ∷ indices n (i + 1) b (sum + length (b i))

unfoldable pub sum_from : ℕ → ℕ → (ℕ → List CompressedNode) → ℕ → ℕ
sum_from zero i b sum = sum
sum_from (suc n) i b sum = sum_from n (i + 1) b (sum + length (b i))

unfoldable pub all_nodes : ℕ → ℕ → (ℕ → List CompressedNode) → List ℕ
all_nodes zero i b = []
all_nodes (suc n) i b = map (λ x. x.node) (b i) ++ all_nodes n (i + 1) b

-- SerializeInternalVector: the unsigned numbers that it writes, in order.
unfoldable pub serialize_internal_vector : Container → List ℕ
unfolding indices sum_from all_nodes
serialize_internal_vector c =
    let n = c.geometries.size in
    let b = c.geometries.at in (n + 1) ∷ (indices n 0 b 0 ++ (sum_from n 0 b 0 ∷ all_nodes n 0 b))
