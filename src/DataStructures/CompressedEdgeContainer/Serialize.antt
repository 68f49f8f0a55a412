-- ===== src/DataStructures/CompressedEdgeContainer/Serialize.antt =====
-- osrm-backend/data_structures/compressed_edge_container.cpp (SerializeInternalVector) and the reader
-- of its file, LoadGeometries and GetUncompressedGeometry of
-- osrm-backend/server/data_structures/internal_datafacade.hpp. A file is the list of its numbers.
use maiden.Prelude.{
  ℕ, zero, suc, ◌+◌, ◌-◌, ◌≤◌, ◌<◌, ◌≡◌, refl, ap, ◌∙◌, Option, none, some, List, [], ◌∷◌, ◌++◌,
  map, length, length-append, arith, get_elem?,
}
use maiden.DataStructures.CompressedEdgeContainer.{
  CompressedNode, Container, indices, sum_from, all_nodes, serialize_internal_vector,
}

pub record Geometries : Type 0 where
  pub geometry_indices : List ℕ
  pub geometry_list : List ℕ

-- The next `n` numbers of a stream and its rest; `none` if it ends before them.
unfoldable pub read : ℕ → List ℕ → Option (List ℕ × List ℕ)
read zero xs = some ([], xs)
read (suc n) [] = none
read (suc n) (x ∷ xs) = elim (read n xs) [ none ↦ none | some r ↦ some (x ∷ r.0, r.1) ]

abbrev pub load_list : List ℕ → List ℕ → Option Geometries
load_list is [] = none
load_list is (n ∷ xs) = elim (read n xs) [
  | none ↦ none
  | some r ↦ some (record { geometry_indices = is; geometry_list = r.0 })
]

unfoldable pub load_geometries : List ℕ → Option Geometries
load_geometries [] = none
load_geometries (n ∷ xs) = elim (read n xs) [ none ↦ none | some r ↦ load_list r.0 r.1 ]

unfoldable pub take : ℕ → List ℕ → List ℕ
take zero xs = []
take (suc n) [] = []
take (suc n) (x ∷ xs) = x ∷ take n xs

unfoldable pub drop : ℕ → List ℕ → List ℕ
drop zero xs = xs
drop (suc n) [] = []
drop (suc n) (x ∷ xs) = drop n xs

-- The nodes from the id's index up to the next one; `at` throws on a missing index.
unfoldable pub get_uncompressed_geometry : Geometries → ℕ → Option (List ℕ)
unfolding take drop
get_uncompressed_geometry g id = elim (get_elem? g.geometry_indices id) [
  | none ↦ none
  | some begin ↦ elim (get_elem? g.geometry_indices (id + 1)) [
    | none ↦ none
    | some end ↦ some (take (end - begin) (drop begin g.geometry_list))
  ]
]

-- The geometry of an id in a file.
unfoldable pub geometry_in_file : List ℕ → ℕ → Option (List ℕ)
unfolding load_geometries get_uncompressed_geometry
geometry_in_file file id = elim (load_geometries file) [
  | none ↦ none
  | some g ↦ get_uncompressed_geometry g id
]

read-append : (xs ys : List ℕ) → read (length xs) (xs ++ ys) ≡ some (xs, ys)
unfolding read
read-append [] ys = refl
read-append (x ∷ xs) ys = rw (read-append xs ys) refl

read-all : (xs : List ℕ) → read (length xs) xs ≡ some (xs, [])
unfolding read
read-all [] = refl
read-all (x ∷ xs) = rw (read-all xs) refl

take-append : (xs ys : List ℕ) → take (length xs) (xs ++ ys) ≡ xs
unfolding take
take-append [] ys = refl
take-append (x ∷ xs) ys = ap (λ zs. x ∷ zs) (take-append xs ys)

drop-append : (xs ys : List ℕ) (n : ℕ) → drop (length xs + n) (xs ++ ys) ≡ drop n ys
unfolding drop
drop-append [] ys n = ap (λ m. drop m ys) (omega arith)
drop-append (x ∷ xs) ys n =
    let next : suc (length xs) + n ≡ suc (length xs + n) = omega arith in
    ap (λ m. drop m (x ∷ (xs ++ ys))) next ∙ drop-append xs ys n

length-map : (f : CompressedNode → ℕ) (xs : List CompressedNode) → length (map f xs) ≡ length xs
length-map f [] = refl
length-map f (x ∷ xs) = omega (arith, length-map f xs)

length-indices : (n i : ℕ) (b : ℕ → List CompressedNode) (s : ℕ) → length (indices n i b s) ≡ n + 1
unfolding indices
length-indices zero i b s = refl
length-indices (suc n) i b s = omega (arith, length-indices n (i + 1) b (s + length (b i)))

abbrev nodes_of : List CompressedNode → List ℕ
nodes_of b = map (λ x. x.node) b

sum_from-all_nodes :
    (n i : ℕ) (b : ℕ → List CompressedNode) (s : ℕ)
    → sum_from n i b s ≡ s + length (all_nodes n i b)
unfolding sum_from all_nodes
sum_from-all_nodes zero i b s = omega arith
sum_from-all_nodes (suc n) i b s = omega (
  arith,
  sum_from-all_nodes n (i + 1) b (s + length (b i)),
  length-append (nodes_of (b i)) (all_nodes n (i + 1) b),
  length-map (λ x. x.node) (b i),
)

get_elem?-indices :
    (k n i : ℕ) (b : ℕ → List CompressedNode) (s : ℕ)
    → k ≤ n
    → get_elem? (indices n i b s) k ≡ some (s + length (all_nodes k i b))
unfolding indices all_nodes
get_elem?-indices zero zero i b s h = ap (λ m. some m) (omega arith)
get_elem?-indices zero (suc n) i b s h = ap (λ m. some m) (omega arith)
get_elem?-indices (suc k) zero i b s h = absurd (omega arith)
get_elem?-indices (suc k) (suc n) i b s h =
    get_elem?-indices k n (i + 1) b (s + length (b i)) (omega arith)
    ∙ ap (λ m. some m)
        (omega (
          arith,
          length-append (nodes_of (b i)) (all_nodes k (i + 1) b),
          length-map (λ x. x.node) (b i),
        ))

length-all_nodes-suc :
    (k i j : ℕ) (b : ℕ → List CompressedNode)
    → j ≡ i + k
    → length (all_nodes (suc k) i b) ≡ length (all_nodes k i b) + length (nodes_of (b j))
unfolding all_nodes
length-all_nodes-suc zero i j b e =
    let here : i ≡ j = omega arith in
    omega (arith, length-append (nodes_of (b i)) [], ap (λ m. length (nodes_of (b m))) here)
length-all_nodes-suc (suc k) i j b e = omega (
  arith,
  length-all_nodes-suc k (i + 1) j b (omega arith),
  length-append (nodes_of (b i)) (all_nodes (suc k) (i + 1) b),
  length-append (nodes_of (b i)) (all_nodes k (i + 1) b),
)

take-drop-all_nodes :
    (k n i j : ℕ) (b : ℕ → List CompressedNode)
    → k < n
    → j ≡ i + k
    → take (length (nodes_of (b j))) (drop (length (all_nodes k i b)) (all_nodes n i b))
      ≡ nodes_of (b j)
unfolding all_nodes drop
take-drop-all_nodes k zero i j b h e = absurd (omega arith)
take-drop-all_nodes zero (suc n) i j b h e =
    let here : j ≡ i = omega arith in rw here (take-append (nodes_of (b i)) (all_nodes n (i + 1) b))
take-drop-all_nodes (suc k) (suc n) i j b h e =
    rw
      (
        length-append (nodes_of (b i)) (all_nodes k (i + 1) b),
        drop-append (nodes_of (b i)) (all_nodes n (i + 1) b) (length (all_nodes k (i + 1) b)),
      )
      (take-drop-all_nodes k n (i + 1) j b (omega arith) (omega arith))

index_of :
    (k n : ℕ) (b : ℕ → List CompressedNode)
    → k ≤ n
    → get_elem? (indices n 0 b 0) k ≡ some (length (all_nodes k 0 b))
index_of k n b h = get_elem?-indices k n 0 b 0 h ∙ ap (λ m. some m) (omega arith)

load-serialize :
    (c : Container)
    → load_geometries (serialize_internal_vector c)
      ≡ some (record {
        geometry_indices = indices c.geometries.size 0 c.geometries.at 0;
        geometry_list = all_nodes c.geometries.size 0 c.geometries.at;
      })
unfolding load_geometries serialize_internal_vector
load-serialize c =
    let n = c.geometries.size in
    let b = c.geometries.at in
    let rest = sum_from n 0 b 0 ∷ all_nodes n 0 b in
    let front : read (n + 1) (indices n 0 b 0 ++ rest) ≡ some (indices n 0 b 0, rest) =
      ap (λ m. read m (indices n 0 b 0 ++ rest)) (omega (arith, length-indices n 0 b 0))
      ∙ read-append (indices n 0 b 0) rest in
    let total : sum_from n 0 b 0 ≡ length (all_nodes n 0 b) =
      omega (arith, sum_from-all_nodes n 0 b 0) in
    rw (front, load_geometries, total, load_list, read-all (all_nodes n 0 b)) refl

-- The file that SerializeInternalVector writes, loaded again, yields the nodes of every bucket of
-- the container, in their order, under the bucket's position.
pub geometry_in_file-serialize_internal_vector :
    (c : Container) (k : ℕ)
    → k < c.geometries.size
    → geometry_in_file (serialize_internal_vector c) k
      ≡ some (map (λ x. x.node) (c.geometries.at k))
unfolding geometry_in_file get_uncompressed_geometry
geometry_in_file-serialize_internal_vector c k h =
    let n = c.geometries.size in
    let b = c.geometries.at in
    let next : k + 1 ≡ suc k = omega arith in
    let width : length (all_nodes (k + 1) 0 b) - length (all_nodes k 0 b)
        ≡ length (nodes_of (b k)) =
      omega (
        arith,
        length-all_nodes-suc k 0 k b (omega arith),
        ap (λ m. length (all_nodes m 0 b)) next,
      ) in
    rw
      (
        load-serialize c,
        geometry_in_file,
        get_uncompressed_geometry,
        index_of k n b (omega arith),
        index_of (k + 1) n b (omega arith),
        width,
        take-drop-all_nodes k n 0 k b h (omega arith),
      )
      refl
