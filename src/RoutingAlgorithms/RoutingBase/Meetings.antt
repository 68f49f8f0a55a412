-- ===== src/RoutingAlgorithms/RoutingBase/Meetings.antt =====
-- osrm-backend/routing_algorithms/routing_base.hpp: where the two searches meet.
use mathlib.Core.Path.{subst}
use maiden.Typedefs.{invalid_edge_weight}
use maiden.Prelude.{
  ℕ, ◌+◌, ◌*◌, ◌≤◌, ◌<◌, ◌≡◌, ◌⊎◌, sym, ap, ◌∙◌, false, ◌&&◌, none, some, ltb, leb, arith,
  Bool-cases, Option-cases, inl, inr,
}
use maiden.RoutingAlgorithms.QueryHeap.{Label}
use maiden.RoutingAlgorithms.RoutingBase.{Meeting, meet, int_offset}
use maiden.RoutingAlgorithms.RoutingBase.Labels.{Labels}
use maiden.RoutingAlgorithms.RoutingBase.Step.{Advanced}

-- Beyond this key a search stops.
abbrev pub limit : ℕ → Meeting → ℕ
limit offset b = b.upper_bound + int_offset + offset

-- The upper bound is at most the initial one, no less than a meeting's sum, if it has been set, and no greater than that of
-- any two labels that left the heaps below the limit and have a sum that is not negative.
pub record IsBound (offset : ℕ) (f r : Labels) (b : Meeting) : Type 0 where
  pub valid : b.upper_bound ≤ invalid_edge_weight
  pub met :
      (b.upper_bound ≡ invalid_edge_weight)
      ⊎ ((l : Label) × (k : Label) × (f b.middle ≡ some l)
          × (r b.middle ≡ some k)
          × (l.weight + k.weight ≤ b.upper_bound + 2 * int_offset))
  pub least :
      (n : ℕ) (l k : Label)
      → f n ≡ some l
      → r n ≡ some k
      → l.queued ≡ false
      → k.queued ≡ false
      → (b.upper_bound + 2 * int_offset ≤ l.weight + k.weight)
        ⊎ (l.weight + k.weight < 2 * int_offset)
        ⊎ (limit offset b < l.weight)
        ⊎ (limit offset b < k.weight)

pub IsBound-swap :
    (offset : ℕ) (f r : Labels) (b : Meeting) → IsBound offset f r b → IsBound offset r f b
IsBound-swap offset f r b h = record {
  valid = h.valid;
  met = elim h.met [ inl unset ↦ inl unset | inr (l, k, p, q, le) ↦ inr (k, l, q, p, omega arith) ];
  least = λ n l k p q s t. ground (arith, h.least n k l q p t s);
}

-- The bound after a node with a key has met the label that the other search has for it.
abbrev pub met_at : Labels → Meeting → ℕ → ℕ → Meeting
met_at r b node key = elim (r node) [ none ↦ b | some k ↦ meet b node (k.weight + key) ]

met_at-least :
    (offset : ℕ) (r : Labels) (b : Meeting) (node key : ℕ) (k : Label)
    → r node ≡ some k
    → ((met_at r b node key).upper_bound + 2 * int_offset ≤ key + k.weight)
      ⊎ (key + k.weight < 2 * int_offset)
met_at-least offset r b node key k e = ground arith

met_at-le :
    (r : Labels) (b : Meeting) (node key : ℕ) → (met_at r b node key).upper_bound ≤ b.upper_bound
met_at-le r b node key = ground arith

met_at-cases :
    (r : Labels) (b : Meeting) (node key : ℕ)
    → (met_at r b node key ≡ b)
      ⊎ ((k : Label) × (r node ≡ some k)
          × ((met_at r b node key).middle ≡ node)
          × ((met_at r b node key).upper_bound + 2 * int_offset ≡ k.weight + key))
met_at-cases r b node key = elim (Option-cases (r node)) [
  | inl unknown ↦ inl (ground arith)
  | inr (k, e) ↦
      elim (Bool-cases (
        ltb (k.weight + key) (b.upper_bound + 2 * int_offset)
        && leb (2 * int_offset) (k.weight + key))) [
          | inl better ↦ inr (k, e, ground arith, ground arith)
          | inr worse ↦ inl (ground arith)
        ]
]

pub Advanced-IsBound :
    (offset : ℕ) (f f' r : Labels) (b : Meeting) (node key : ℕ)
    → Advanced node key (limit offset (met_at r b node key)) f f'
    → IsBound offset f r b
    → IsBound offset f' r (met_at r b node key)
Advanced-IsBound offset f f' r b node key a h =
    let b' = met_at r b node key in
    record {
      valid = ground (arith, h.valid, met_at-le r b node key);
      met = elim (met_at-cases r b node key) [
        | inl same ↦
            subst
              (λ x.
                (x.upper_bound ≡ invalid_edge_weight)
                ⊎ ((l : Label) × (k : Label) × (f' x.middle ≡ some l)
                    × (r x.middle ≡ some k)
                    × (l.weight + k.weight ≤ x.upper_bound + 2 * int_offset)))
              (sym same)
              (elim h.met [
                | inl unset ↦ inl unset
                | inr (l, k, p, q, le) ↦
                    let (l', p', le') = a.known b.middle l p in inr (l', k, p', q, omega arith)
              ])
        | inr (k, e, at, sum) ↦
            let (old, p, waits, w) = a.was in
            let (l, p', le) = a.known node old p in
            inr (l, k, ap f' at ∙ p', ap r at ∙ e, omega arith)
      ];
      least = λ n l k p q s t. elim (a.fresh n l p s) [
        | inl before ↦ ground (arith, h.least n l k before q s t, met_at-le r b node key)
        | inr (inl (same, w)) ↦
            ground (arith, met_at-least offset r b node key k (ap r (sym same) ∙ q))
        | inr (inr far) ↦ inr (inr (inl far))
      ];
    }
