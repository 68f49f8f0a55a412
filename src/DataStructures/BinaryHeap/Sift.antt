-- ===== src/DataStructures/BinaryHeap/Sift.antt =====
-- osrm-backend/data_structures/binary_heap.hpp: Upheap and Downheap restore the order of the tree.
-- The fuel of each loop is enough: a round halves the key, or doubles it below the size.
use maiden.Prelude.{
  ℕ, zero, suc, ◌+◌, ◌*◌, ◌/◌, ◌≤◌, ◌<◌, ◌≡◌, ◌≢◌, ◌⊎◌, inl, inr, Bool-cases, arith, ltb, leb,
}
use maiden.DataStructures.BinaryHeap.{
  HeapElement, Arrays, move, upheap_loop, upheap, smaller_child, downheap_loop, downheap,
}
use maiden.DataStructures.BinaryHeap.Links.{
  Inv, Hole, FitsBelow, FitsAbove, settle-Inv, move-Linked, move-Placed, Kept, Kept-refl,
  Kept-trans, move-Kept, settle-Kept,
}

child-cases : (k h : ℕ) → k / 2 ≡ h → (k ≡ 2 * h) ⊎ (k ≡ 2 * h + 1)
child-cases k h e = omega arith

module _ {ℓ} {D : Type ℓ} where
  -- No element is lighter than the sentinel, so the loop stops at the root.
  above_sentinel :
      (a : Arrays D) (n w : ℕ) → (a.heap.at 0).weight ≡ 0 → w < (a.heap.at n).weight → 0 < n
  above_sentinel a zero w e h = absurd (omega arith)
  above_sentinel a (suc n) w e h = omega arith

  up-Hole :
      (gone : ℕ) (a : Arrays D) (hole : ℕ) (e : HeapElement)
      → Hole gone a hole e
      → e.weight < (a.heap.at (hole / 2)).weight
      → 0 < hole / 2
      → Hole gone (move a hole (hole / 2)) (hole / 2) e
  unfolding move
  up-Hole gone a hole e v h pos =
      let next = hole / 2 in
      let q : next < a.heap.size = omega (arith, v.below) in
      let r : next ≢ hole = omega arith in
      record {
        sentinel = ground (arith, v.sentinel, v.above);
        above = pos;
        below = q;
        linked = move-Linked gone a hole next e v pos q r;
        placed = move-Placed gone a hole next e v pos q r;
        inside = v.inside;
        kept = v.kept;
        same = ground (arith, v.same);
        live = ground (arith, v.live, v.linked next);
        order = λ k p s t u. ground (arith, v.order k, v.bridged k);
        bridged = λ k p s t. ground (arith, v.order k, v.order next);
      }

  up-FitsBelow :
      (gone : ℕ) (a : Arrays D) (hole : ℕ) (e : HeapElement)
      → Hole gone a hole e
      → e.weight < (a.heap.at (hole / 2)).weight
      → 0 < hole / 2
      → FitsBelow (move a hole (hole / 2)) (hole / 2) e
  unfolding move
  up-FitsBelow gone a hole e v h pos k p s = ground (arith, v.order k)

  -- What a sift ends in: a hole that the element fits.
  abbrev Rests : ℕ → Arrays D → HeapElement → Arrays D × ℕ → Type ℓ
  Rests gone a e (b, stop) = Hole gone b stop e × FitsBelow b stop e × FitsAbove b stop e × Kept a b

  upheap_loop-Rests :
      (fuel gone : ℕ) (a : Arrays D) (hole : ℕ) (e : HeapElement)
      → hole < fuel
      → Hole gone a hole e
      → FitsBelow a hole e
      → Rests gone a e (upheap_loop fuel a hole e.weight)
  unfolding upheap_loop
  upheap_loop-Rests zero gone a hole e f v b = absurd (omega arith)
  upheap_loop-Rests (suc fuel) gone a hole e f v b =
      elim (Bool-cases (ltb e.weight (a.heap.at (hole / 2)).weight)) [
        | inl rises ↦
            let next = hole / 2 in
            let h : e.weight < (a.heap.at next).weight = ground arith in
            let pos : 0 < next = above_sentinel a next e.weight v.sentinel h in
            let step =
              upheap_loop-Rests fuel gone (move a hole next) next e (omega (arith, v.above))
                (up-Hole gone a hole e v h pos) (up-FitsBelow gone a hole e v h pos) in
            rw rises (
              step.0,
              step.1,
              step.2,
              Kept-trans (move-Kept gone a hole next e v pos (omega (arith, v.below)) (omega arith))
                  step.3,
            )
        | inr rests ↦ rw rests (v, b, (λ p. ground arith), Kept-refl a)
      ]

  down_fuel :
      (fuel : ℕ) (a : Arrays D) (hole next : ℕ)
      → a.heap.size < suc fuel + hole
      → 0 < hole
      → next / 2 ≡ hole
      → (move a hole next).heap.size < fuel + next
  unfolding move
  down_fuel fuel a hole next f p c = omega arith

  -- `next` is the lighter child of the hole.
  record IsSmallerChild (a : Arrays D) (hole next : ℕ) : Type 0 where
    child : next / 2 ≡ hole
    inside : next < a.heap.size
    least :
        (k : ℕ) → k < a.heap.size → k / 2 ≡ hole → (a.heap.at next).weight ≤ (a.heap.at k).weight

  smaller_child-IsSmallerChild :
      (a : Arrays D) (hole : ℕ)
      → 2 * hole < a.heap.size
      → IsSmallerChild a hole (smaller_child a (2 * hole))
  unfolding smaller_child
  smaller_child-IsSmallerChild a hole h = record {
    child = ground arith;
    inside = ground arith;
    least = λ k p q. ground (arith, child-cases k hole q);
  }

  module _ (gone : ℕ) (a : Arrays D) (hole next : ℕ) (e : HeapElement) (v : Hole gone a hole e)
      (c : IsSmallerChild a hole next) (h : (a.heap.at next).weight < e.weight) where
    down_pos : 0 < next
    down_pos = omega (arith, c.child, v.above)

    down_ne : next ≢ hole
    down_ne = omega (arith, c.child, v.above)

    down-Hole : Hole gone (move a hole next) next e
    unfolding move
    down-Hole = record {
      sentinel = ground (arith, v.sentinel, v.above);
      above = down_pos;
      below = c.inside;
      linked = move-Linked gone a hole next e v down_pos c.inside down_ne;
      placed = move-Placed gone a hole next e v down_pos c.inside down_ne;
      inside = v.inside;
      kept = v.kept;
      same = ground (arith, v.same);
      live = ground (arith, v.live, v.linked next, down_pos);
      order = λ k p s t u. ground (arith, v.order k, v.bridged next, c.least k, c.child);
      bridged = λ k p s t. ground (arith, v.order k, c.child, down_ne);
    }

    down-FitsAbove : FitsAbove (move a hole next) next e
    unfolding move
    down-FitsAbove p = ground (arith, c.child)

  downheap_loop-Rests :
      (fuel gone : ℕ) (a : Arrays D) (hole : ℕ) (e : HeapElement)
      → a.heap.size < fuel + hole
      → Hole gone a hole e
      → FitsAbove a hole e
      → Rests gone a e (downheap_loop fuel a hole e.weight)
  unfolding downheap_loop
  downheap_loop-Rests zero gone a hole e f v t = absurd (omega (arith, v.below))
  downheap_loop-Rests (suc fuel) gone a hole e f v t =
      elim (Bool-cases (ltb (2 * hole) a.heap.size)) [
        | inl child ↦
            let next = smaller_child a (2 * hole) in
            let c = smaller_child-IsSmallerChild a hole (ground arith) in
            elim (Bool-cases (leb e.weight (a.heap.at next).weight)) [
              | inl rests ↦
                  rw (child, rests) (v, (λ k p q. ground (arith, c.least k)), t, Kept-refl a)
              | inr sinks ↦
                  let h : (a.heap.at next).weight < e.weight = ground arith in
                  let step =
                    downheap_loop-Rests fuel gone (move a hole next) next e
                      (down_fuel fuel a hole next f v.above c.child)
                      (down-Hole gone a hole next e v c h)
                      (down-FitsAbove gone a hole next e v c h) in
                  let moved =
                    move-Kept gone a hole next e v (down_pos gone a hole next e v c h) c.inside
                      (down_ne gone a hole next e v c h) in
                  rw (child, sinks) (step.0, step.1, step.2, Kept-trans moved step.3)
            ]
        | inr leaf ↦ rw leaf (v, (λ k p q. ground arith), t, Kept-refl a)
      ]

  -- The element at `hole` is too light for its place, but no lighter than its children allow.
  pub upheap-Inv :
      (gone : ℕ) (a : Arrays D) (hole : ℕ)
      → Hole gone a hole (a.heap.at hole)
      → FitsBelow a hole (a.heap.at hole)
      → Inv gone (upheap a hole) × Kept a (upheap a hole)
  unfolding upheap
  upheap-Inv gone a hole v b =
      let e = a.heap.at hole in
      let r = upheap_loop-Rests (suc hole) gone a hole e (omega arith) v b in
      let (c, stop) = upheap_loop (suc hole) a hole e.weight in
      (settle-Inv gone c stop e r.0 r.1 r.2, Kept-trans r.3 (settle-Kept gone c stop e r.0))

  pub downheap-Inv :
      (gone : ℕ) (a : Arrays D) (hole : ℕ)
      → Hole gone a hole (a.heap.at hole)
      → FitsAbove a hole (a.heap.at hole)
      → Inv gone (downheap a hole) × Kept a (downheap a hole)
  unfolding downheap
  downheap-Inv gone a hole v t =
      let e = a.heap.at hole in
      let r = downheap_loop-Rests a.heap.size gone a hole e (omega (arith, v.above)) v t in
      let (c, stop) = downheap_loop a.heap.size a hole e.weight in
      (settle-Inv gone c stop e r.0 r.1 r.2, Kept-trans r.3 (settle-Kept gone c stop e r.0))
