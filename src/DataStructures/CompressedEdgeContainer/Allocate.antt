-- ===== src/DataStructures/CompressedEdgeContainer/Allocate.antt =====
-- osrm-backend/data_structures/compressed_edge_container.cpp: the bucket that CompressEdge gives to
-- the first edge, and the one that it takes from the second.
use mathlib.Core.Path.{subst}
use maiden.Prelude.{
  ℕ, zero, suc, ◌+◌, ◌≡◌, refl, sym, ◌∙◌, ◌≢◌, inl, inr, none, some, List, [], ◌∷◌, write, arith,
  All, Option-cases,
}
use maiden.Prelude.Int.{ℤ}
use maiden.DataStructures.CompressedEdgeContainer.{
  CompressedNode, Container, push_free, increase_free_list, set_entry, take_free, pick, allocate,
}
use maiden.DataStructures.CompressedEdgeContainer.Buckets.{
  IsFree, IsValid, increase_free_list-IsValid, take_free-IsValid,
}

-- The nodes that an edge stands for behind its source: those of its bucket, or its one target.
abbrev pub chain : Container → ℕ → ℕ → ℤ → List CompressedNode
chain c e target w = elim (c.index_map e) [
  | none ↦ record { node = target; weight = w } ∷ []
  | some i ↦ c.geometries.at i
]

-- No bucket in use is empty.
abbrev pub IsFilled : Container → Type 0
IsFilled c = (e i : ℕ) → c.index_map e ≡ some i → c.geometries.at i ≢ []

-- What Allocate leaves: the edge has a bucket, a new one being empty, and nothing else changes.
pub record Allocated (c d : Container) (e i : ℕ) : Type 0 where
  pub valid : IsValid d
  pub entry : d.index_map e ≡ some i
  pub others : (f : ℕ) → f ≢ e → d.index_map f ≡ c.index_map f
  pub fresh : c.index_map e ≡ none → d.geometries.at i ≡ []
  pub reused : (j : ℕ) → c.index_map e ≡ some j → i ≡ j
  pub kept : (f j : ℕ) → c.index_map f ≡ some j → d.geometries.at j ≡ c.geometries.at j

taken :
    (c : Container) (e i : ℕ) (l : List ℕ)
    → IsValid c
    → c.index_map e ≡ none
    → c.free_list ≡ i ∷ l
    → Allocated c (take_free c e (i ∷ l)) e i
taken c e i l h n f = record {
  valid = take_free-IsValid c e i l h n f;
  entry = ground arith;
  others = λ g p. ground arith;
  fresh = λ _. (subst (All (IsFree c.geometries)) f h.free).0.1;
  reused = λ j p. ground arith;
  kept = λ g j p. refl;
}

push_free-cons :
    (n : ℕ) (x : ℕ) (l : List ℕ) (m : ℕ)
    → (i : ℕ) × (l' : List ℕ) × (push_free n (x ∷ l) m ≡ i ∷ l')
unfolding push_free
push_free-cons zero x l m = (x, l, refl)
push_free-cons (suc n) x l m = push_free-cons n m (x ∷ l) (m + 1)

pick-Allocated :
    (c : Container) (e : ℕ) (l : List ℕ)
    → IsValid c
    → c.index_map e ≡ none
    → c.free_list ≡ l
    → (i : ℕ) × Allocated c (pick c e l) e i
unfolding increase_free_list push_free
pick-Allocated c e [] h n f =
    let grown = push_free-cons 99 c.free_list_maximum c.free_list (c.free_list_maximum + 1) in
    let t =
      taken (increase_free_list c) e grown.0 grown.1 (increase_free_list-IsValid c h) n grown.2 in
    let d = take_free (increase_free_list c) e (increase_free_list c).free_list in
    (
      grown.0,
      subst (λ x. Allocated c (take_free (increase_free_list c) e x) e grown.0) (sym grown.2)
          (record {
            valid = t.valid;
            entry = t.entry;
            others = t.others;
            fresh = λ _. t.fresh n;
            reused = λ j p. absurd (ground arith);
            kept = λ g j p. ground (arith, h.inside g j p);
          }),
    )
pick-Allocated c e (i ∷ l) h n f = (i, taken c e i l h n f)

pub allocate-Allocated :
    (c : Container) (e : ℕ) → IsValid c → (i : ℕ) × Allocated c (allocate c e) e i
unfolding allocate
allocate-Allocated c e h = elim (Option-cases (c.index_map e)) [
  | inl n ↦ let t = pick-Allocated c e c.free_list h n refl in (t.0, rw (n, allocate) t.1)
  | inr (i, p) ↦ (
    i,
    rw (p, allocate)
        (record {
          valid = h;
          entry = p;
          others = λ f q. refl;
          fresh = λ q. absurd (cc (sym p ∙ q));
          reused = λ j q. ground arith;
          kept = λ f j q. refl;
        }),
  )
]

All-both {κ μ ν} :
    {P : ℕ → Type κ} {Q : ℕ → Type μ} {R : ℕ → Type ν}
    → ((x : ℕ) → P x → Q x → R x)
    → (xs : List ℕ) → All P xs
    → All Q xs
    → All R xs
All-both f [] h k = tt
All-both f (x ∷ xs) h k = (f x h.0 k.0, All-both f xs h.1 k.1)

-- Another content of a bucket in use.
pub fill-IsValid :
    (c : Container) (e i : ℕ) (b : List CompressedNode)
    → IsValid c
    → c.index_map e ≡ some i
    → IsValid (record c { geometries = write c.geometries i b })
fill-IsValid c e i b h p = record {
  inside = h.inside;
  own = h.own;
  used = h.used;
  free = All-both (λ j f w. (f.0, ground (arith, f.1, w))) c.free_list h.free (h.used e i p);
  distinct = h.distinct;
  maximum = h.maximum;
}

-- The bucket of an edge is emptied and freed.
abbrev pub release : Container → ℕ → ℕ → Container
release c e j = record c {
  geometries = write c.geometries j [];
  index_map = set_entry c.index_map e none;
  free_list = j ∷ c.free_list;
}

pub release-IsValid :
    (c : Container) (e j : ℕ) → IsValid c → c.index_map e ≡ some j → IsValid (release c e j)
release-IsValid c e j h p = record {
  inside = λ f i q. ground (arith, h.inside f i);
  own = λ f g i q r. ground (arith, h.own f g i);
  used = λ f i q. (ground (arith, h.own e f i), h.used f i (ground arith));
  free = (
    (h.inside e j p, ground arith),
    All-both (λ i f w. (f.0, ground (arith, f.1))) c.free_list h.free (h.used e j p),
  );
  distinct = (h.used e j p, h.distinct);
  maximum = h.maximum;
}
