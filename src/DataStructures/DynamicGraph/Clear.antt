-- ===== src/DataStructures/DynamicGraph/Clear.antt =====
-- osrm-backend/data_structures/dynamic_graph.hpp: the loops of DeleteEdgesTo.
use maiden.Prelude.{
  ℕ, zero, suc, ◌+◌, ◌-◌, ◌≤◌, ◌<◌, ◌≡◌, refl, sym, ap, ◌∙◌, ◌≢◌, Bool, not, ◌&&◌, ltb, ◌==◌,
  Vector, arith, inl, inr, Bool-cases,
}
use maiden.DataStructures.DynamicGraph.{Edge, dummy_target, remove_at, remove_here, remove_from}
use maiden.DataStructures.DynamicGraph.Ranges.{occurrences}
use maiden.DataStructures.DynamicGraph.Delete.{occurrences-remove_at, remove_at-live}

module _ {ℓ} {D : Type ℓ} where
  -- Edges to a target, and edges to others with a property.
  abbrev pub leads_to : ℕ → Edge D → Bool
  leads_to target e = e.target == target

  abbrev pub other_with : ℕ → (Edge D → Bool) → Edge D → Bool
  other_with target p e = not (e.target == target) && p e

  module _ (target s n : ℕ) where
    -- From `d` deleted edges to `d'`: slots before `i` and outside the range of `n` slots from `s` on
    -- stay, and edges to the target are all that goes.
    pub record Cleared (i : ℕ) (v : Vector (Edge D)) (d : ℕ) (v' : Vector (Edge D)) (d' : ℕ)
        : Type ℓ where
      pub more : d ≤ d'
      pub most : d' ≤ n
      pub others :
          (p : Edge D → Bool)
          → occurrences (other_with target p) v' s (n - d')
            ≡ occurrences (other_with target p) v s (n - d)
      pub gone :
          occurrences (leads_to target) v' s (n - d') + d'
          ≡ occurrences (leads_to target) v s (n - d) + d
      pub before : (j : ℕ) → j < i → v'.at j ≡ v.at j
      pub outside : (j : ℕ) → (s ≤ j → j < s + n → ⊥) → v'.at j ≡ v.at j
      pub size : v'.size ≡ v.size
      pub live :
          ((j : ℕ) → s ≤ j → j < s + n - d → (v.at j).target ≢ dummy_target)
          → (j : ℕ) → s ≤ j
          → j < s + n - d'
          → (v'.at j).target ≢ dummy_target

    Cleared-refl : (i : ℕ) (v : Vector (Edge D)) (d : ℕ) → d ≤ n → Cleared i v d v d
    Cleared-refl i v d h = record {
      more = omega arith;
      most = h;
      others = λ p. refl;
      gone = refl;
      before = λ j q. refl;
      outside = λ j q. refl;
      size = refl;
      live = λ f. f;
    }

    Cleared-trans :
        (i k : ℕ) (v : Vector (Edge D)) (d : ℕ) (v' : Vector (Edge D)) (d' : ℕ)
        (v'' : Vector (Edge D)) (d'' : ℕ)
        → i ≤ k
        → Cleared i v d v' d'
        → Cleared k v' d' v'' d''
        → Cleared i v d v'' d''
    Cleared-trans i k v d v' d' v'' d'' le a b = record {
      more = omega (arith, a.more, b.more);
      most = b.most;
      others = λ p. b.others p ∙ a.others p;
      gone = b.gone ∙ a.gone;
      before = λ j q. b.before j (omega arith) ∙ a.before j q;
      outside = λ j q. b.outside j q ∙ a.outside j q;
      size = b.size ∙ a.size;
      live = λ f. b.live (a.live f);
    }

    Cleared-remove_at :
        (i : ℕ) (v : Vector (Edge D)) (d : ℕ)
        → s ≤ i
        → i + d < s + n
        → (v.at i).target ≡ target
        → Cleared i v d (remove_at v i (s + n - (d + 1))) (d + 1)
    Cleared-remove_at i v d a b t =
        let last = s + n - (d + 1) in
        let removed = λ (p : Edge D → Bool).
          occurrences-remove_at p v s (n - (d + 1)) (n - d) i last (omega arith) (omega arith) a
            (omega arith) in
        record {
          more = omega arith;
          most = omega arith;
          others = λ p. ground (arith, removed (other_with target p));
          gone = ground (arith, removed (leads_to target));
          before = λ j q. ground arith;
          outside = λ j q. elim (Bool-cases (i == j)) [
            | inl here ↦ absurd (q (ground arith) (ground arith))
            | inr apart ↦ elim (Bool-cases (last == j)) [
              | inl here ↦ absurd (q (ground arith) (ground arith))
              | inr elsewhere ↦ ground arith
            ]
          ];
          size = refl;
          live =
              λ f j x y. remove_at-live v s i last j (λ k x y. f k x (omega arith)) x (omega arith);
        }

    -- The inner loop ends where the range ends or at an edge to another node.
    remove_here-Cleared :
        (fuel : ℕ) (v : Vector (Edge D)) (i d : ℕ)
        → s ≤ i
        → i + d < s + n
        → s + n ≤ fuel + i + d
        → (v.at i).target ≡ target
        → Cleared i v d
            (remove_here fuel v i (s + n) target d).0
            (remove_here fuel v i (s + n) target d).1
          × (i + (remove_here fuel v i (s + n) target d).1 < s + n
              → ((remove_here fuel v i (s + n) target d).0.at i).target ≢ target)
    unfolding remove_here
    remove_here-Cleared zero v i d a b f t = absurd (omega arith)
    remove_here-Cleared (suc fuel) v i d a b f t =
        let last = s + n - (d + 1) in
        let w = remove_at v i last in
        let step = Cleared-remove_at i v d a b t in
        elim (Bool-cases (ltb i last && ((w.at i).target == target))) [
          | inl again ↦
              let rest =
                remove_here-Cleared fuel w i (d + 1) a (ground arith) (omega arith)
                  (ground arith) in
              rw (again, remove_here)
                (
                  Cleared-trans i i v d w (d + 1) (remove_here fuel w i (s + n) target (d + 1)).0
                      (remove_here fuel w i (s + n) target (d + 1)).1 (omega arith) step rest.0,
                  rest.1,
                )
          | inr stop ↦ rw (stop, remove_here) (step, λ q e. ground arith)
        ]

    -- No edge of the range before the slot `i` leads to the target.
    abbrev pub IsClean : Vector (Edge D) → ℕ → ℕ → Type 0
    IsClean v i d = (j : ℕ) → s ≤ j → j < i → j + d < s + n → (v.at j).target ≢ target

    abbrev pub Finished : Vector (Edge D) → ℕ → ℕ → Vector (Edge D) × ℕ → Type ℓ
    Finished v i d r = Cleared i v d r.0 r.1 × IsClean r.0 (s + n) r.1

    IsClean-suc :
        (v w : Vector (Edge D)) (i d k : ℕ)
        → IsClean v i d
        → d ≤ k
        → ((j : ℕ) → j < i → w.at j ≡ v.at j)
        → (i + k < s + n → (w.at i).target ≢ target)
        → IsClean w (i + 1) k
    IsClean-suc v w i d k c le same h j a b q e = elim (Bool-cases (i == j)) [
      | inl here ↦ h (ground arith) (ground arith)
      | inr apart ↦
          c j a (ground arith) (omega arith) (ap (λ x. x.target) (sym (same j (ground arith))) ∙ e)
    ]

    -- The outer loop: when it ends, no edge of the range leads to the target.
    pub remove_from-Finished :
        (fuel : ℕ) (v : Vector (Edge D)) (i d : ℕ)
        → s ≤ i
        → d ≤ n
        → s + n ≤ fuel + i
        → IsClean v i d
        → Finished v i d (remove_from fuel v i (s + n) target d)
    unfolding remove_from
    remove_from-Finished zero v i d a b f c =
        (Cleared-refl i v d b, λ j x y z. c j x (omega arith) z)
    remove_from-Finished (suc fuel) v i d a b f c = elim (Bool-cases (ltb i (s + n - d))) [
      | inr done ↦ rw (done, remove_from) (Cleared-refl i v d b, λ j x y z. c j x (ground arith) z)
      | inl inside ↦ elim (Bool-cases ((v.at i).target == target)) [
        | inr passed ↦
            let rest =
              remove_from-Finished fuel v (i + 1) d (omega arith) b (omega arith)
                (IsClean-suc v v i d d c (omega arith) (λ j q. refl) (λ q e. ground arith)) in
            let r = remove_from fuel v (i + 1) (s + n) target d in
            rw (inside, passed, remove_from)
              (
                Cleared-trans i (i + 1) v d v d r.0 r.1 (omega arith) (Cleared-refl i v d b) rest.0,
                rest.1,
              )
        | inl found ↦
            let here =
              remove_here-Cleared (s + n - d - i) v i d a (ground arith) (ground arith)
                (ground arith) in
            let w = (remove_here (s + n - d - i) v i (s + n) target d).0 in
            let k = (remove_here (s + n - d - i) v i (s + n) target d).1 in
            let rest =
              remove_from-Finished fuel w (i + 1) k (omega arith) here.0.most (omega arith)
                (IsClean-suc v w i d k c here.0.more here.0.before here.1) in
            let r = remove_from fuel w (i + 1) (s + n) target k in
            rw (inside, found, remove_from)
              (Cleared-trans i (i + 1) v d w k r.0 r.1 (omega arith) here.0 rest.0, rest.1)
      ]
    ]

    pub IsClean-none :
        (m k : ℕ) (v : Vector (Edge D))
        → ((j : ℕ) → k ≤ j → j < k + m → (v.at j).target ≢ target)
        → occurrences (leads_to target) v k m ≡ 0
    unfolding occurrences
    IsClean-none zero k v h = refl
    IsClean-none (suc m) k v h = ground (
      arith,
      h k (omega arith) (omega arith),
      IsClean-none m (k + 1) v (λ j a b. h j (omega arith) (omega arith)),
    )
