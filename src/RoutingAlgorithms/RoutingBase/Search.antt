-- ===== src/RoutingAlgorithms/RoutingBase/Search.antt =====
-- osrm-backend/routing_algorithms/routing_base.hpp: Search, from heaps that hold the starts.
use maiden.Typedefs.{special_nodeid, invalid_edge_weight}
use maiden.Prelude.{
  ℕ, ◌-◌, ◌*◌, ◌≤◌, ◌<◌, ◌≡◌, refl, sym, ◌∙◌, Bool, true, false, Option, none, some, arith,
  Option-cases, inl, inr,
}
use maiden.RoutingAlgorithms.QueryHeap.{QueryHeap, Label}
use maiden.RoutingAlgorithms.RoutingBase.{Facade, Searches, search_loop, int_offset}
use maiden.RoutingAlgorithms.RoutingBase.Labels.{IsPositive}
use maiden.RoutingAlgorithms.RoutingBase.Advance.{IsSearch}
use maiden.RoutingAlgorithms.RoutingBase.Loop.{IsSearching, remaining-le, search_loop-IsSearching}

-- The label of a start: its key, itself as the parent, and in the heap.
abbrev pub start_label : (ℕ → Option ℕ) → ℕ → Option Label
start_label start n = elim (start n) [
  | none ↦ none
  | some w ↦ some (record { weight = w; parent = n; queued = true })
]

-- A heap that holds the starts and nothing else.
pub record Begins (q : QueryHeap) (start : ℕ → Option ℕ) (nodes : ℕ) (h : q.Heap) : Type 0 where
  pub heap : q.IsHeap h
  pub holds : (n : ℕ) → q.label h n ≡ start_label start n
  pub bounded : (n w : ℕ) → start n ≡ some w → n < nodes

start_label-inv :
    (start : ℕ → Option ℕ) (n : ℕ) (l : Label)
    → start_label start n ≡ some l
    → (start n ≡ some l.weight) × (l.parent ≡ n) × (l.queued ≡ true)
start_label-inv start n l e = elim (Option-cases (start n)) [
  | inl nothing ↦ absurd (ground arith)
  | inr (w, s) ↦ ground arith
]

module _ (q : QueryHeap) (g : Facade) (nodes : ℕ) where
  open q use {Heap, IsHeap, label, size, min_key}

  Begins-IsSearch :
      (d : Bool) (start : ℕ → Option ℕ) (h : Heap)
      → Begins q start nodes h
      → IsSearch q g d start nodes h
  Begins-IsSearch d start h b = record {
    heap = b.heap;
    tree = record {
      ordered = λ n m l k e e' s s'.
          absurd (ground (arith, start_label-inv start n l (sym (b.holds n) ∙ e)));
      supported =
          λ n l e. let i = start_label-inv start n l (sym (b.holds n) ∙ e) in inl (i.0, i.1);
    };
    bounded = λ n l e. b.bounded n l.weight (start_label-inv start n l (sym (b.holds n) ∙ e)).0;
  }

  abbrev pub initial : Heap → Heap → Searches q g
  initial forward_heap reverse_heap = record {
    forward_heap = forward_heap;
    reverse_heap = reverse_heap;
    meeting = record { middle = special_nodeid; upper_bound = invalid_edge_weight };
  }

  module _ (forward_start reverse_start : ℕ → Option ℕ) (forward_heap reverse_heap : Heap)
      (f : Begins q forward_start nodes forward_heap)
      (r : Begins q reverse_start nodes reverse_heap) where
    abbrev pub offset_of : ℕ
    offset_of = int_offset - min_key forward_heap

    initial-IsSearching :
        (offset : ℕ)
        → IsSearching q g forward_start reverse_start nodes offset
            (initial forward_heap reverse_heap)
    initial-IsSearching offset = record {
      forward = Begins-IsSearch true forward_start forward_heap f;
      reverse = Begins-IsSearch false reverse_start reverse_heap r;
      bound = record {
        valid = omega arith;
        met = inl refl;
        least = λ n l k e e' s s'.
            absurd (ground (arith, start_label-inv forward_start n l (sym (f.holds n) ∙ e)));
      };
    }

    -- The offset makes up for the least forward start.
    pub offset-least : (n w : ℕ) → forward_start n ≡ some w → int_offset - offset_of ≤ w
    offset-least n w e =
        let held : label forward_heap n ≡ some (record { weight = w; parent = n; queued = true }) =
          f.holds n ∙ ground arith in
        omega (
          arith,
          q.min_key-label forward_heap n (record { weight = w; parent = n; queued = true }) f.heap
              held refl,
        )

    module _ (pos : IsPositive g) (targets : (e : ℕ) → g.target e < nodes) (rounds : ℕ)
        (enough : 2 * nodes ≤ rounds) where
      abbrev pub last : Searches q g
      last = search_loop q g rounds offset_of (initial forward_heap reverse_heap)

      pub last-IsSearching :
          IsSearching q g forward_start reverse_start nodes offset_of last
          × (size (last).forward_heap ≡ 0)
          × (size (last).reverse_heap ≡ 0)
      last-IsSearching =
          search_loop-IsSearching q g forward_start reverse_start nodes offset_of pos targets rounds
            (initial forward_heap reverse_heap) (initial-IsSearching offset_of)
            (omega (
              arith,
              enough,
              remaining-le nodes (label forward_heap),
              remaining-le nodes (label reverse_heap),
            ))
