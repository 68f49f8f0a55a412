-- ===== src/DataStructures/CompressedEdgeContainer/Buckets.antt =====
-- osrm-backend/data_structures/compressed_edge_container.cpp: the buckets in use and the free ones.
use mathlib.Core.Path.{subst}
use maiden.Prelude.{
  ℕ, zero, suc, ◌+◌, ◌≤◌, ◌<◌, ◌≡◌, refl, ◌≢◌, inl, inr, none, some, List, [], ◌∷◌, ◌==◌, Vector,
  arith, All, All-imp, Bool-cases,
}
use maiden.DataStructures.CompressedEdgeContainer.{
  CompressedNode, Container, push_free, increase_free_list, new_container, set_entry, take_free,
}

abbrev pub Without : ℕ → List ℕ → Type 0
Without i = All (λ j. j ≢ i)

abbrev pub Distinct : List ℕ → Type 0
Distinct [] = Unit {0}
Distinct (i ∷ l) = Without i l × Distinct l

abbrev pub IsFree : Vector (List CompressedNode) → ℕ → Type 0
IsFree g i = (i < g.size) × (g.at i ≡ [])

-- Every bucket is used by one edge at most or is free, and free buckets are empty.
pub record IsValid (c : Container) : Type 0 where
  pub inside : (e i : ℕ) → c.index_map e ≡ some i → i < c.geometries.size
  pub own : (e f i : ℕ) → c.index_map e ≡ some i → c.index_map f ≡ some i → e ≡ f
  pub used : (e i : ℕ) → c.index_map e ≡ some i → Without i c.free_list
  pub free : All (IsFree c.geometries) c.free_list
  pub distinct : Distinct c.free_list
  pub maximum : c.free_list_maximum ≡ c.geometries.size

push_free-Without :
    (n : ℕ) (l : List ℕ) (m i : ℕ) → i < m → Without i l → Without i (push_free n l m)
unfolding push_free
push_free-Without zero l m i h w = w
push_free-Without (suc n) l m i h w =
    push_free-Without n (m ∷ l) (m + 1) i (omega arith) ((λ e. omega arith), w)

push_free-Distinct :
    (n : ℕ) (l : List ℕ) (m : ℕ) → All (λ j. j < m) l → Distinct l → Distinct (push_free n l m)
unfolding push_free
push_free-Distinct zero l m b d = d
push_free-Distinct (suc n) l m b d =
    push_free-Distinct n (m ∷ l) (m + 1) (omega arith, All-imp (λ j h. omega arith) l b)
      (All-imp (λ j h e. omega arith) l b, d)

push_free-All {κ} :
    {P : ℕ → Type κ} (n : ℕ) (l : List ℕ) (m k : ℕ)
    → k ≡ m + n
    → ((j : ℕ) → m ≤ j → j < k → P j)
    → All P l
    → All P (push_free n l m)
unfolding push_free
push_free-All zero l m k e f h = h
push_free-All (suc n) l m k e f h =
    push_free-All n (m ∷ l) (m + 1) k (omega arith) (λ j p q. f j (omega arith) q)
      (f m (omega arith) (omega arith), h)

pub increase_free_list-IsValid : (c : Container) → IsValid c → IsValid (increase_free_list c)
unfolding increase_free_list
increase_free_list-IsValid c h =
    let size = c.geometries.size in
    let below =
      All-imp {Q = λ j. j < c.free_list_maximum} (λ j f. omega (arith, h.maximum, f.0)) c.free_list
        h.free in
    record {
      inside = λ e i f. omega (arith, h.inside e i f);
      own = h.own;
      used = λ e i f.
          push_free-Without 100 c.free_list c.free_list_maximum i
            (omega (arith, h.inside e i f, h.maximum)) (h.used e i f);
      free =
          push_free-All 100 c.free_list c.free_list_maximum (size + 100) (omega (arith, h.maximum))
            (λ j p q. (q, ground (arith, h.maximum)))
            (All-imp (λ j f. (omega (arith, f.0), ground (arith, f.1))) c.free_list h.free);
      distinct = push_free-Distinct 100 c.free_list c.free_list_maximum below h.distinct;
      maximum = omega (arith, h.maximum);
    }

-- The container as constructed is valid.
pub new_container-IsValid : IsValid new_container
unfolding new_container
new_container-IsValid =
    increase_free_list-IsValid
      (record {
        free_list_maximum = 0;
        geometries = record { size = 0; at = λ i. [] };
        free_list = [];
        index_map = λ e. none;
      })
      (record {
        inside = λ e i f. cc;
        own = λ e f i p q. cc;
        used = λ e i f. tt;
        free = tt;
        distinct = tt;
        maximum = refl;
      })

free-ne-used :
    (c : Container) (i : ℕ) (l : List ℕ)
    → c.free_list ≡ i ∷ l
    → IsValid c
    → (g j : ℕ) → c.index_map g ≡ some j
    → i ≢ j
free-ne-used c i l f h g j p = (subst (Without j) f (h.used g j p)).0

used_after :
    (c : Container) (e i : ℕ) (l : List ℕ)
    → IsValid c
    → c.free_list ≡ i ∷ l
    → (g j : ℕ) → set_entry c.index_map e (some i) g ≡ some j
    → Without j l
used_after c e i l h f g j p = elim (Bool-cases (e == g)) [
  | inl here ↦
      let same : i ≡ j = ground arith in
      subst (λ k. Without k l) same (subst Distinct f h.distinct).0
  | inr there ↦ (subst (Without j) f (h.used g j (ground arith))).1
]

-- The first free bucket, given to an edge that has none.
pub take_free-IsValid :
    (c : Container) (e i : ℕ) (l : List ℕ)
    → IsValid c
    → c.index_map e ≡ none
    → c.free_list ≡ i ∷ l
    → IsValid (take_free c e (i ∷ l))
take_free-IsValid c e i l h n f =
    let own = subst (All (IsFree c.geometries)) f h.free in
    let apart = subst Distinct f h.distinct in
    record {
      inside = λ g j p. ground (arith, own, h.inside g j);
      own = λ g k j p q.
          ground (arith, h.own g k j, free-ne-used c i l f h g j, free-ne-used c i l f h k j);
      used = λ g j p. used_after c e i l h f g j p;
      free = own.1;
      distinct = apart.1;
      maximum = h.maximum;
    }
