-- ===== src/DataStructures/CompressedEdgeContainer/Compress.antt =====
-- osrm-backend/data_structures/compressed_edge_container.cpp: CompressEdge, against the chain of
-- nodes that an edge stands for.
use mathlib.Core.Path.{subst}
use maiden.Prelude.{
  ℕ, ◌≡◌, refl, sym, ap, ◌∙◌, ◌≢◌, inl, inr, true, false, none, some, List, [], ◌∷◌, ◌++◌, ◌==◌,
  write, arith, Option-cases, Bool-cases,
}
use maiden.Prelude.Int.{ℤ}
use maiden.DataStructures.CompressedEdgeContainer.{
  CompressedNode, Container, allocate, start_bucket, append_second, compress_edge, has_entry_for_id,
}
use maiden.DataStructures.CompressedEdgeContainer.Buckets.{IsValid}
use maiden.DataStructures.CompressedEdgeContainer.Allocate.{
  chain, IsFilled, Allocated, allocate-Allocated, fill-IsValid, release, release-IsValid,
}

-- What CompressEdge leaves.
pub record Compressed (c : Container) (e1 e2 via target : ℕ) (w1 w2 : ℤ) (d : Container)
    : Type 0 where
  pub valid : IsValid d
  pub filled : IsFilled d
  pub kept : has_entry_for_id d e1 ≡ true
  pub removed : has_entry_for_id d e2 ≡ false
  pub joined : (n : ℕ) (w : ℤ) → chain d e1 n w ≡ chain c e1 via w1 ++ chain c e2 target w2
  pub others : (f n : ℕ) (w : ℤ) → f ≢ e1 → f ≢ e2 → chain d f n w ≡ chain c f n w

start_bucket-full : (b : List CompressedNode) (via : ℕ) (w : ℤ) → b ≢ [] → start_bucket b via w ≡ b
start_bucket-full [] via w h = absurd (h refl)
start_bucket-full (x ∷ b) via w h = refl

start :
    (c d : Container) (e i via : ℕ) (w : ℤ)
    → IsFilled c
    → Allocated c d e i
    → start_bucket (d.geometries.at i) via w ≡ chain c e via w
start c d e i via w h a = elim (Option-cases (c.index_map e)) [
  | inl n ↦ ground (arith, a.fresh n)
  | inr (j, p) ↦
      ground (arith, a.reused j, a.kept e j, h e j, start_bucket-full (d.geometries.at i) via w)
]

start_bucket-ne : (b : List CompressedNode) (via : ℕ) (w : ℤ) → start_bucket b via w ≢ []
start_bucket-ne [] via w e = cc e
start_bucket-ne (x ∷ b) via w e = cc e

append-ne : (b x : List CompressedNode) → b ≢ [] → b ++ x ≢ []
append-ne [] x h e = h refl
append-ne (y ∷ b) x h e = cc e

module _ (c d : Container) (e1 e2 via target : ℕ) (w1 w2 : ℤ) (i : ℕ) (h : IsValid c)
    (full : IsFilled c) (ne : e1 ≢ e2) (a : Allocated c d e1 i) where
  abbrev first : List CompressedNode
  first = start_bucket (d.geometries.at i) via w1

  abbrev begun : Container
  begun = record d { geometries = write d.geometries i first }

  begun-IsValid : IsValid begun
  begun-IsValid = fill-IsValid d e1 i first a.valid a.entry

  abbrev filled_with : List CompressedNode → Container
  filled_with x = record d { geometries = write begun.geometries i (begun.geometries.at i ++ x) }

  filled_with-IsValid : (x : List CompressedNode) → IsValid (filled_with x)
  filled_with-IsValid x = fill-IsValid begun e1 i (begun.geometries.at i ++ x) begun-IsValid a.entry

  filled_with-IsFilled : (x : List CompressedNode) → IsFilled (filled_with x)
  filled_with-IsFilled x f j p = elim (Bool-cases (i == j)) [
    | inl here ↦ ground (arith, append-ne first x (start_bucket-ne (d.geometries.at i) via w1))
    | inr there ↦ elim (Bool-cases (f == e1)) [
      | inl same ↦
          let e : f ≡ e1 = ground arith in
          let r : d.index_map e1 ≡ some j = subst (λ g. d.index_map g ≡ some j) e p in
          absurd (ground (arith, a.entry, r))
      | inr other ↦ ground (arith, a.others f, a.kept f j, full f j)
    ]
  ]

  -- An edge that is neither keeps its chain, if its entry and the content of its bucket are kept.
  others_kept :
      (f m : ℕ) (w : ℤ)
      → f ≢ e1
      → f ≢ e2
      → (x : Container) → x.index_map f ≡ d.index_map f
      → ((j : ℕ) → d.index_map f ≡ some j → x.geometries.at j ≡ d.geometries.at j)
      → chain x f m w ≡ chain c f m w
  others_kept f m w p q x same keeps = elim (Option-cases (c.index_map f)) [
    | inl n ↦ ground (arith, a.others f p)
    | inr (j, r) ↦ ground (arith, a.others f p, a.kept f j r, keeps j)
  ]

  apart : (f j : ℕ) → f ≢ e1 → d.index_map f ≡ some j → i ≢ j
  apart f j p r e = p (a.valid.own f e1 j r (a.entry ∙ ap some e))

  atomic-Compressed :
      c.index_map e2 ≡ none
      → Compressed c e1 e2 via target w1 w2 (append_second begun i e2 target w2)
  unfolding append_second has_entry_for_id
  atomic-Compressed n =
      let gone : d.index_map e2 ≡ none = a.others e2 (λ e. ne (sym e)) ∙ n in
      let x : List CompressedNode = record { node = target; weight = w2 } ∷ [] in
      rw (gone, append_second)
        (record {
          valid = filled_with-IsValid x;
          filled = λ f j p. filled_with-IsFilled x f j p;
          kept = ground (arith, a.entry);
          removed = ground arith;
          joined = λ m w. ground (arith, a.entry, n, start c d e1 i via w1 full a);
          others = λ f m w p q.
              others_kept f m w p q (filled_with x) (ground arith)
                (λ j r. ground (arith, apart f j p r));
        })

  joined-Compressed :
      (j : ℕ)
      → c.index_map e2 ≡ some j
      → Compressed c e1 e2 via target w1 w2 (append_second begun i e2 target w2)
  unfolding append_second has_entry_for_id
  joined-Compressed j p =
      let there : d.index_map e2 ≡ some j = a.others e2 (λ e. ne (sym e)) ∙ p in
      let distinct = apart e2 j (λ e. ne (sym e)) there in
      let x = begun.geometries.at j in
      let y = release (filled_with x) e2 j in
      rw (there, append_second)
        (record {
          valid = release-IsValid (filled_with x) e2 j (filled_with-IsValid x) there;
          filled = λ f k q. ground (arith, filled_with-IsFilled x f k, a.valid.own f e2 k);
          kept = ground (arith, a.entry, ne);
          removed = ground arith;
          joined = λ m w.
              ground (arith, a.entry, ne, distinct, p, a.kept e2 j p, start c d e1 i via w1 full a);
          others = λ f m w q r.
              others_kept f m w q r y (ground arith)
                (λ k s. ground (arith, apart f k q s, a.valid.own f e2 k));
        })

-- CompressEdge of two different edges, in a valid container with no empty bucket in use: the first
-- edge gets the chain of nodes that it stood for, followed by that of the second; the second loses
-- its entry; every other edge keeps its chain; and the container stays valid, with no empty bucket
-- in use.
pub compress_edge_correct :
    (c : Container) (e1 e2 via target : ℕ) (w1 w2 : ℤ)
    → IsValid c
    → IsFilled c
    → e1 ≢ e2
    → Compressed c e1 e2 via target w1 w2 (compress_edge c e1 e2 via target w1 w2)
unfolding compress_edge
compress_edge_correct c e1 e2 via target w1 w2 h full ne =
    let (i, a) = allocate-Allocated c e1 h in
    let d = allocate c e1 in
    rw (a.entry, compress_edge)
      (elim (Option-cases (c.index_map e2)) [
        | inl n ↦ atomic-Compressed c d e1 e2 via target w1 w2 i h full ne a n
        | inr (j, p) ↦ joined-Compressed c d e1 e2 via target w1 w2 i h full ne a j p
      ])
