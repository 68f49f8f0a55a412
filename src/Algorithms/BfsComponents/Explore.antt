-- ===== src/Algorithms/BfsComponents/Explore.antt =====
-- osrm-backend/algorithms/bfs_components.hpp: ExploreComponent, and what it counts.
use maiden.Prelude.{
  ℕ, zero, suc, ◌+◌, ◌%◌, ◌^◌, ◌≤◌, ◌<◌, ◌≡◌, ◌≢◌, ◌⊎◌, refl, sym, ap, ◌∙◌, Bool, not, ◌&&◌, List,
  [], ◌∷◌, length, length-append, All, ◌==◌, arith, Bool-cases, inl, inr,
}
use maiden.DataStructures.RestrictionMap.{
  RestrictionMap, check_for_emanating_is_only_turn, check_if_turn_is_restricted,
}
use maiden.Algorithms.BfsComponents.{
  Exploration, unexplored, set_index, follow, follow_all, explore_node, explore_loop,
  explore_component,
}
use maiden.Algorithms.BfsComponents.Count.{count, count-le, count-set_index}

-- Every target is a node.
abbrev pub IsClosed : ℕ → (ℕ → List ℕ) → Type 0
IsClosed nodes targets = (v : ℕ) → All (λ w. w < nodes) (targets v)

-- Indices that stay once they are set, and are set to a component only.
pub record Marks (current : ℕ) (index index' : ℕ → ℕ) : Type 0 where
  pub kept : (x : ℕ) → index x ≢ unexplored → index' x ≡ index x
  pub new : (x : ℕ) → (index' x ≡ index x) ⊎ (index' x ≡ current)

pub Marks-refl : (current : ℕ) (index : ℕ → ℕ) → Marks current index index
Marks-refl current index = record { kept = λ x h. refl; new = λ x. inl refl }

pub Marks-trans :
    (current : ℕ) (f g h : ℕ → ℕ) → Marks current f g → Marks current g h → Marks current f h
Marks-trans current f g h p q = record {
  kept = λ x d. q.kept x (λ e. d (sym (p.kept x d) ∙ e)) ∙ p.kept x d;
  new = λ x. elim (q.new x) [
    | inl same ↦ elim (p.new x) [ inl before ↦ inl (same ∙ before) | inr now ↦ inr (same ∙ now) ]
    | inr now ↦ inr now
  ];
}

pub set_index-Marks :
    (current w : ℕ) (index : ℕ → ℕ)
    → index w ≡ unexplored
    → Marks current index (set_index index w current)
set_index-Marks current w index free = record {
  kept = λ x d. elim (Bool-cases (w == x)) [
    | inl here ↦ let at : w ≡ x = ground arith in absurd (d (sym (ap index at) ∙ free))
    | inr apart ↦ ground arith
  ];
  new = λ x. elim (Bool-cases (w == x)) [
    | inl here ↦ inr (ground arith)
    | inr apart ↦ inl (ground arith)
  ];
}

module _ (nodes : ℕ) (targets : ℕ → List ℕ) (restrictions : RestrictionMap)
    (barrier_nodes : ℕ → Bool) (current : ℕ) (fresh : current ≢ unexplored) where
  -- Each node that gets the component's index is queued once.
  record Followed (s s' : Exploration) : Type 0 where
    size : s'.current_component_size ≡ s.current_component_size
    marks : Marks current s.component_index_list s'.component_index_list
    counted :
        length s'.bfs_queue + count s.component_index_list current nodes
        ≡ length s.bfs_queue + count s'.component_index_list current nodes
    left :
        length s'.bfs_queue + count s'.component_index_list unexplored nodes
        ≡ length s.bfs_queue + count s.component_index_list unexplored nodes

  Followed-refl : (s : Exploration) → Followed s s
  Followed-refl s = record {
    size = refl;
    marks = Marks-refl current s.component_index_list;
    counted = refl;
    left = refl;
  }

  follow-Followed :
      (only u v : ℕ) (s : Exploration) (w : ℕ)
      → w < nodes
      → Followed s (follow nodes targets restrictions barrier_nodes current only u v s w)
  unfolding follow
  follow-Followed only u v s w lt =
      elim (Bool-cases (not (only == unexplored) && not (w == only))) [
        | inl elsewhere ↦ rw elsewhere (Followed-refl s)
        | inr allowed ↦
            elim (Bool-cases (
              not (u == w)
              && not (check_if_turn_is_restricted restrictions u v w)
              && (unexplored == s.component_index_list w))) [
                | inr known ↦ rw (allowed, known) (Followed-refl s)
                | inl next ↦
                    let free : s.component_index_list w ≡ unexplored = ground arith in
                    let a = count-set_index s.component_index_list current w current nodes lt in
                    let b = count-set_index s.component_index_list unexplored w current nodes lt in
                    let longer = length-append s.bfs_queue ((w, v) ∷ []) in
                    rw (allowed, next)
                      (record {
                        size = refl;
                        marks = set_index-Marks current w s.component_index_list free;
                        counted = ground (arith, a, longer, free, fresh);
                        left = ground (arith, b, longer, free, fresh);
                      })
              ]
      ]

  Followed-trans : (s t r : Exploration) → Followed s t → Followed t r → Followed s r
  Followed-trans s t r p q = record {
    size = q.size ∙ p.size;
    marks =
        Marks-trans current s.component_index_list t.component_index_list r.component_index_list
          p.marks q.marks;
    counted = omega (arith, p.counted, q.counted);
    left = omega (arith, p.left, q.left);
  }

  follow_all-Followed :
      (only u v : ℕ) (s : Exploration) (ws : List ℕ)
      → All (λ w. w < nodes) ws
      → Followed s (follow_all nodes targets restrictions barrier_nodes current only u v s ws)
  unfolding follow_all
  follow_all-Followed only u v s [] h = Followed-refl s
  follow_all-Followed only u v s (w ∷ ws) h =
      let t = follow nodes targets restrictions barrier_nodes current only u v s w in
      Followed-trans s t (follow_all nodes targets restrictions barrier_nodes current only u v t ws)
        (follow-Followed only u v s w h.0) (follow_all-Followed only u v t ws h.1)

  module _ (closed : IsClosed nodes targets) (small : suc nodes < 2 ^ 32) where
    explore_node-Followed :
        (v u : ℕ) (s : Exploration)
        → Followed
            (record s { current_component_size = (s.current_component_size + 1) % 2 ^ 32 })
            (explore_node nodes targets restrictions barrier_nodes current v u s)
    unfolding explore_node
    explore_node-Followed v u s =
        let counted = record s {
          current_component_size = (s.current_component_size + 1) % 2 ^ 32;
        } in
        elim (Bool-cases (barrier_nodes v)) [
          | inl barrier ↦ rw barrier (Followed-refl counted)
          | inr passable ↦ rw passable (
              follow_all-Followed (check_for_emanating_is_only_turn restrictions u v) u v counted
                (targets v) (closed v))
        ]

    -- What is explored when the queue has run empty.
    pub record Explored (index : ℕ → ℕ) (s : Exploration) : Type 0 where
      pub done : s.bfs_queue ≡ []
      pub size : s.current_component_size ≡ suc (count s.component_index_list current nodes)
      pub marks : Marks current index s.component_index_list

    explore_loop-Explored :
        (fuel : ℕ) (queue : List (ℕ × ℕ)) (index : ℕ → ℕ) (size : ℕ)
        → length queue + count index unexplored nodes ≤ fuel
        → size + length queue ≡ suc (count index current nodes)
        → Explored index
            (explore_loop nodes targets restrictions barrier_nodes fuel current queue index size)
    unfolding explore_loop
    explore_loop-Explored zero [] index size enough balance = record {
      done = refl;
      size = omega arith;
      marks = Marks-refl current index;
    }
    explore_loop-Explored zero (x ∷ queue) index size enough balance = absurd (omega arith)
    explore_loop-Explored (suc fuel) [] index size enough balance = record {
      done = refl;
      size = omega arith;
      marks = Marks-refl current index;
    }
    explore_loop-Explored (suc fuel) ((v, u) ∷ queue) index size enough balance =
        let s0 : Exploration = record {
          component_index_list = index;
          bfs_queue = queue;
          current_component_size = size;
        } in
        let s = explore_node nodes targets restrictions barrier_nodes current v u s0 in
        let f = explore_node-Followed v u s0 in
        let bound = count-le index current nodes in
        let rest =
          explore_loop-Explored fuel s.bfs_queue s.component_index_list s.current_component_size
            (omega (arith, f.left)) (omega (arith, f.size, f.counted, bound)) in
        record {
          done = rest.done;
          size = rest.size;
          marks =
              Marks-trans current index s.component_index_list
                (explore_loop nodes targets restrictions barrier_nodes fuel current s.bfs_queue
                  s.component_index_list s.current_component_size).component_index_list
                f.marks rest.marks;
        }

    -- On a graph with fewer than 2^32 - 1 nodes whose edges lead to nodes, from an unexplored node and
    -- with a component that no node has, ExploreComponent ends with an empty queue; it changes no index
    -- that was set, gives the component to the node and to no node but unexplored ones, and returns one
    -- more than the number of nodes with the component.
    pub explore_component-Explored :
        (node : ℕ) (index : ℕ → ℕ)
        → node < nodes
        → index node ≡ unexplored
        → count index current nodes ≡ 0
        → Explored index
            (explore_component nodes targets restrictions barrier_nodes current node index)
          × ((explore_component nodes targets restrictions barrier_nodes current node
                  index).component_index_list
                node
              ≡ current)
    unfolding explore_component
    explore_component-Explored node index lt free unused =
        let start = set_index index node current in
        let a = count-set_index index current node current nodes lt in
        let b = count-set_index index unexplored node current nodes lt in
        let le = count-le index unexplored nodes in
        let r =
          explore_loop-Explored (suc nodes) ((node, node) ∷ []) start 1
            (ground (arith, b, le, free, fresh)) (ground (arith, a, free, fresh, unused)) in
        let set : start node ≡ current = ground arith in
        (
          record {
            done = r.done;
            size = r.size;
            marks =
                Marks-trans current index start
                  (explore_component nodes targets restrictions barrier_nodes current node
                    index).component_index_list
                  (set_index-Marks current node index free) r.marks;
          },
          r.marks.kept node (λ e. fresh (sym set ∙ e)) ∙ set,
        )
