-- ===== src/RoutingAlgorithms/RoutingBase/Loop.antt =====
-- osrm-backend/routing_algorithms/routing_base.hpp: the loop of Search and its end.
use mathlib.Core.Path.{subst}
use maiden.Prelude.{
  ℕ, zero, suc, ◌+◌, ◌≤◌, ◌<◌, ◌≡◌, refl, sym, ap, ◌∙◌, Bool, true, false, not, Option, none, some,
  ltb, ◌==◌, if◌then◌else◌, arith, Bool-cases, Option-cases, inl, inr,
}
use maiden.RoutingAlgorithms.QueryHeap.{QueryHeap, Label}
use maiden.RoutingAlgorithms.RoutingBase.{
  Facade, Searches, forward_step, reverse_step, search_loop, routing_step,
}
use maiden.RoutingAlgorithms.RoutingBase.Labels.{Labels, IsPositive}
use maiden.RoutingAlgorithms.RoutingBase.Meetings.{IsBound, IsBound-swap}
use maiden.RoutingAlgorithms.RoutingBase.Advance.{IsSearch, routing_step-Stepped}

abbrev pub has_left : Option Label → Bool
has_left none = false
has_left (some l) = not l.queued

-- How many of the nodes below `n` have not left the heap.
unfoldable pub remaining : ℕ → Labels → ℕ
remaining zero f = 0
remaining (suc n) f = remaining n f + (if has_left (f n) then 0 else 1)

pub remaining-le : (n : ℕ) (f : Labels) → remaining n f ≤ n
unfolding remaining
remaining-le zero f = omega arith
remaining-le (suc n) f = ground (arith, remaining-le n f)

module _ (f f' : Labels)
    (kept : (n : ℕ) (l : Label) → f n ≡ some l → l.queued ≡ false → f' n ≡ some l) where
  has_left-kept : (n : ℕ) → has_left (f n) ≡ true → has_left (f' n) ≡ true
  has_left-kept n h = elim (Option-cases (f n)) [
    | inl unknown ↦ absurd (ground arith)
    | inr (l, e) ↦ ground (arith, kept n l e)
  ]

  remaining-kept : (n : ℕ) → remaining n f' ≤ remaining n f
  unfolding remaining
  remaining-kept zero = omega arith
  remaining-kept (suc n) = ground (arith, remaining-kept n, has_left-kept n)

  remaining-lt :
      (n k : ℕ)
      → k < n
      → has_left (f k) ≡ false
      → has_left (f' k) ≡ true
      → remaining n f' < remaining n f
  unfolding remaining
  remaining-lt zero k q h h' = absurd (omega arith)
  remaining-lt (suc n) k q h h' = elim (Bool-cases (k == n)) [
    | inl here ↦
        let same : k ≡ n = ground arith in
        let a : has_left (f n) ≡ false = ap (λ m. has_left (f m)) (sym same) ∙ h in
        let b : has_left (f' n) ≡ true = ap (λ m. has_left (f' m)) (sym same) ∙ h' in
        ground (arith, remaining-kept n)
    | inr apart ↦ ground (arith, remaining-lt n k (ground arith) h h', has_left-kept n)
  ]

zero_of : (n : ℕ) → (0 < n → ⊥) → n ≡ 0
zero_of n h = elim (Bool-cases (ltb 0 n)) [
  | inl more ↦ absurd (h (ground arith))
  | inr none_left ↦ ground arith
]

module _ (q : QueryHeap) (g : Facade) (forward_start reverse_start : ℕ → Option ℕ) (nodes : ℕ)
    (offset : ℕ) where
  open q use {label, size}

  pub record IsSearching (s : Searches q g) : Type 0 where
    pub forward : IsSearch q g true forward_start nodes s.forward_heap
    pub reverse : IsSearch q g false reverse_start nodes s.reverse_heap
    pub bound : IsBound offset (label s.forward_heap) (label s.reverse_heap) s.meeting

  abbrev pub measure : Searches q g → ℕ
  measure s = remaining nodes (label s.forward_heap) + remaining nodes (label s.reverse_heap)

  module _ (pos : IsPositive g) (targets : (e : ℕ) → g.target e < nodes) where
    forward_step-IsSearching :
        (s : Searches q g)
        → IsSearching s
        → IsSearching (forward_step q g offset s)
          × (measure (forward_step q g offset s) ≤ measure s)
          × (0 < size s.forward_heap → measure (forward_step q g offset s) < measure s)
    unfolding forward_step
    forward_step-IsSearching s h = elim (Bool-cases (ltb 0 (size s.forward_heap))) [
      | inr done ↦ rw (done, forward_step) (h, omega arith, λ m. absurd (ground arith))
      | inl more ↦
          let r =
            routing_step-Stepped q g true forward_start nodes pos targets offset s.forward_heap
              s.reverse_heap s.meeting h.forward (ground arith) h.bound true h.reverse.heap in
          let f' =
            label (routing_step q g s.forward_heap s.reverse_heap s.meeting offset true true).0 in
          let (l, e, w, _) = r.advanced.was in
          let (l', e', w') = r.advanced.left in
          let lt =
            remaining-lt (label s.forward_heap) f' r.advanced.kept nodes
              (q.delete_min s.forward_heap).0
              (h.forward.bounded (q.delete_min s.forward_heap).0 l e) (ground (arith, e))
              (ground (arith, e')) in
          rw (more, forward_step)
            (
              record { forward = r.search; reverse = h.reverse; bound = r.bound },
              omega (arith, lt),
              λ m. omega (arith, lt),
            )
    ]

    idle_forward :
        (s : Searches q g) → ltb 0 (size s.forward_heap) ≡ false → forward_step q g offset s ≡ s
    unfolding forward_step
    idle_forward s empty = rw (empty, forward_step) refl

    reverse_step-IsSearching :
        (s : Searches q g)
        → IsSearching s
        → IsSearching (reverse_step q g offset s)
          × (measure (reverse_step q g offset s) ≤ measure s)
          × (0 < size s.reverse_heap → measure (reverse_step q g offset s) < measure s)
    unfolding reverse_step
    reverse_step-IsSearching s h = elim (Bool-cases (ltb 0 (size s.reverse_heap))) [
      | inr done ↦ rw (done, reverse_step) (h, omega arith, λ m. absurd (ground arith))
      | inl more ↦
          let swapped =
            IsBound-swap offset (label s.forward_heap) (label s.reverse_heap) s.meeting h.bound in
          let r =
            routing_step-Stepped q g false reverse_start nodes pos targets offset s.reverse_heap
              s.forward_heap s.meeting h.reverse (ground arith) swapped true h.forward.heap in
          let next = routing_step q g s.reverse_heap s.forward_heap s.meeting offset false true in
          let (l, e, w, _) = r.advanced.was in
          let (l', e', w') = r.advanced.left in
          let lt =
            remaining-lt (label s.reverse_heap) (label next.0) r.advanced.kept nodes
              (q.delete_min s.reverse_heap).0
              (h.reverse.bounded (q.delete_min s.reverse_heap).0 l e) (ground (arith, e))
              (ground (arith, e')) in
          rw (more, reverse_step)
            (
              record {
                forward = h.forward;
                reverse = r.search;
                bound = IsBound-swap offset (label next.0) (label s.forward_heap) next.1 r.bound;
              },
              omega (arith, lt),
              λ m. omega (arith, lt),
            )
    ]

    -- A round takes a node from one of the heaps.
    round_lt :
        (s : Searches q g)
        → IsSearching s
        → 0 < size s.forward_heap + size s.reverse_heap
        → (fuel : ℕ) → measure s ≤ suc fuel
        → measure (reverse_step q g offset (forward_step q g offset s)) ≤ fuel
    round_lt s h more fuel le =
        let s1 = forward_step q g offset s in
        let a = forward_step-IsSearching s h in
        let b = reverse_step-IsSearching s1 a.0 in
        elim (Bool-cases (ltb 0 (size s.forward_heap))) [
          | inl some_left ↦ omega (arith, a.2 (ground arith), b.1)
          | inr empty ↦
              let same : s1 ≡ s = idle_forward s empty in
              omega
                (arith, a.1, b.2 (subst (λ x. 0 < size x.reverse_heap) (sym same) (ground arith)))
        ]

    -- With fuel for every node of both searches, the loop ends with both heaps empty.
    pub search_loop-IsSearching :
        (fuel : ℕ) (s : Searches q g)
        → IsSearching s
        → measure s ≤ fuel
        → IsSearching (search_loop q g fuel offset s)
          × (size (search_loop q g fuel offset s).forward_heap ≡ 0)
          × (size (search_loop q g fuel offset s).reverse_heap ≡ 0)
    unfolding search_loop
    search_loop-IsSearching zero s h le =
        let a = (forward_step-IsSearching s h).2 in
        let b = (reverse_step-IsSearching s h).2 in
        (
          h,
          zero_of (size s.forward_heap) (λ m. omega (arith, a m)),
          zero_of (size s.reverse_heap) (λ m. omega (arith, b m)),
        )
    search_loop-IsSearching (suc fuel) s h le =
        elim (Bool-cases (ltb 0 (size s.forward_heap + size s.reverse_heap))) [
          | inr done ↦ rw (done, search_loop) (h, ground arith, ground arith)
          | inl more ↦
              let s1 = forward_step q g offset s in
              let a = forward_step-IsSearching s h in
              let b = reverse_step-IsSearching s1 a.0 in
              rw (more, search_loop)
                (search_loop-IsSearching fuel (reverse_step q g offset s1) b.0
                  (round_lt s h (ground arith) fuel le))
        ]
