-- ===== src/RoutingAlgorithms/RoutingBase/Step.antt =====
-- osrm-backend/routing_algorithms/routing_base.hpp: RoutingStep, on the labels of its heap.
use mathlib.Core.Path.{subst}
use maiden.Prelude.{
  ℕ, ◌≤◌, ◌<◌, ◌≡◌, ◌≢◌, ◌⊎◌, refl, sym, ap, ◌∙◌, Bool, true, false, Option, some, ◌==◌, arith,
  Bool-cases, Option-cases, inl, inr,
}
use maiden.RoutingAlgorithms.QueryHeap.{Label, Popped, leave, unqueue}
use maiden.RoutingAlgorithms.RoutingBase.{Facade}
use maiden.RoutingAlgorithms.RoutingBase.Labels.{Labels, Leads, Supported, IsTree, Relaxed, AtKey}

-- What a step does to the labels of its heap: the node leaves it with its key, and so does perhaps
-- what is beyond a limit.
pub record Advanced (node key limit : ℕ) (f f' : Labels) : Type 0 where
  pub known :
      (n : ℕ) (l : Label) → f n ≡ some l → (k : Label) × (f' n ≡ some k) × (k.weight ≤ l.weight)
  pub kept : (n : ℕ) (l : Label) → f n ≡ some l → l.queued ≡ false → f' n ≡ some l
  pub fresh :
      (n : ℕ) (l : Label)
      → f' n ≡ some l
      → l.queued ≡ false
      → (f n ≡ some l) ⊎ ((n ≡ node) × (l.weight ≡ key)) ⊎ (limit < l.weight)
  pub left : (l : Label) × (f' node ≡ some l) × (l.queued ≡ false)
  pub was : (l : Label) × (f node ≡ some l) × (l.queued ≡ true) × (l.weight ≡ key)

module _ (node : ℕ) (f f1 : Labels) (p : Popped f node f1) where
  abbrev pub least_key : ℕ
  least_key = p.label.weight

  pub popped-node : f1 node ≡ some (leave p.label)
  popped-node = ground (arith, p.after node)

  popped-other : (n : ℕ) → n ≢ node → f1 n ≡ f n
  popped-other n d = ground (arith, p.after n)

  -- A label after the deletion is that of the node, or was there before.
  popped-cases :
      (n : ℕ) (l : Label)
      → f1 n ≡ some l
      → ((n ≡ node) × (l ≡ leave p.label)) ⊎ ((n ≢ node) × (f n ≡ some l))
  popped-cases n l e = elim (Bool-cases (node == n)) [
    | inl here ↦ inl (ground arith, ground (arith, p.after n))
    | inr apart ↦ inr ((λ d. ground arith), ground (arith, p.after n))
  ]

  pub popped-AtKey :
      (g : Facade) (d : Bool) (start : ℕ → Option ℕ) → IsTree g d start f → AtKey least_key f1
  popped-AtKey g d start t n l e s = elim (popped-cases n l e) [
    | inl (same, this) ↦ ground (arith, this)
    | inr (apart, old) ↦ t.ordered n node l p.label old p.held s p.queued
  ]

  popped-settled : (n : ℕ) (l : Label) → f n ≡ some l → l.queued ≡ false → f1 n ≡ some l
  popped-settled n l e s = popped-other n (λ same. ground (arith, p.held, p.queued, ap f same)) ∙ e

  popped-Supported :
      (g : Facade) (d : Bool) (start : ℕ → Option ℕ) (n : ℕ) (l : Label)
      → Supported g d start f n l
      → Supported g d start f1 n l
  popped-Supported g d start n l s = elim s [
    | inl begun ↦ inl begun
    | inr (x, k, leads, hk, sk, w) ↦ inr (x, k, leads, popped-settled l.parent k hk sk, sk, w)
  ]

  pub popped-IsTree :
      (g : Facade) (d : Bool) (start : ℕ → Option ℕ) → IsTree g d start f → IsTree g d start f1
  popped-IsTree g d start t = record {
    ordered = λ n m l k e e' s s'. elim (popped-cases m k e') [
      | inl (same, this) ↦ absurd (ground (arith, this))
      | inr (apart, old) ↦ elim (popped-cases n l e) [
        | inl (same, this) ↦ ground (arith, this, p.least m k old s')
        | inr (apart', old') ↦ t.ordered n m l k old' old s s'
      ]
    ];
    supported = λ n l e. elim (popped-cases n l e) [
      | inl (same, this) ↦
          let mine : Supported g d start f1 node (leave p.label) =
            popped-Supported g d start node p.label (t.supported node p.label p.held) in
          subst (λ m. Supported g d start f1 m l) (sym same)
            (subst (λ k. Supported g d start f1 node k) (sym this) mine)
      | inr (apart, old) ↦ popped-Supported g d start n l (t.supported n l old)
    ];
  }

  pub popped-Advanced : (limit : ℕ) → Advanced node least_key limit f f1
  popped-Advanced limit = record {
    known = λ n l e. elim (Bool-cases (node == n)) [
      | inl here ↦
          let same : node ≡ n = ground arith in
          (leave p.label, ground (arith, p.after n), ground (arith, p.held, ap f same))
      | inr apart ↦ (l, ground (arith, p.after n), omega arith)
    ];
    kept = popped-settled;
    fresh = λ n l e s. elim (popped-cases n l e) [
      | inl (same, this) ↦ inr (inl (same, ground (arith, this)))
      | inr (apart, old) ↦ inl old
    ];
    left = (leave p.label, popped-node, refl);
    was = (p.label, p.held, p.queued, refl);
  }

-- Relaxing keeps the tree, and the advance.
pub Relaxed-IsTree :
    (g : Facade) (d : Bool) (start : ℕ → Option ℕ) (node key : ℕ) (f f' : Labels)
    → Relaxed g d node key f f'
    → AtKey key f
    → ((l : Label) × (f node ≡ some l) × (l.queued ≡ false) × (l.weight ≡ key))
    → IsTree g d start f
    → IsTree g d start f'
Relaxed-IsTree g d start node key f f' r at (own, ho, so, wo) t = record {
  ordered = λ n m l k e e' s s'. elim (r.source n l e) [
    | inr new ↦ absurd (ground (arith, new.0))
    | inl old ↦ elim (r.source m k e') [
      | inl old' ↦ t.ordered n m l k old old' s s'
      | inr (q, up, (x, leads, w)) ↦ omega (arith, at n l old s)
    ]
  ];
  supported = λ n l e. elim (r.source n l e) [
    | inl old ↦ elim (t.supported n l old) [
      | inl begun ↦ inl begun
      | inr (x, k, leads, hk, sk, w) ↦ inr (x, k, leads, r.settled l.parent k hk sk, sk, w)
    ]
    | inr (q, up, (x, leads, w)) ↦ inr (
      x,
      own,
      subst (λ u. Leads g d u x n) (sym up) leads,
      ap f' up ∙ r.settled node own ho so,
      so,
      omega arith,
    )
  ];
}

pub Relaxed-Advanced :
    (g : Facade) (d : Bool) (node key limit : ℕ) (f f1 f' : Labels)
    → Advanced node key limit f f1
    → Relaxed g d node key f1 f'
    → Advanced node key limit f f'
Relaxed-Advanced g d node key limit f f1 f' a r = record {
  known = λ n l e.
      let (k, h, le) = a.known n l e in let (k', h', le') = r.known n k h in (k', h', omega arith);
  kept = λ n l e s. r.settled n l (a.kept n l e s) s;
  fresh = λ n l e s. elim (r.source n l e) [
    | inl old ↦ a.fresh n l old s
    | inr new ↦ absurd (ground (arith, new.0))
  ];
  left = let (l, h, s) = a.left in (l, r.settled node l h s, s);
  was = a.was;
}

-- DeleteAll keeps the tree, and what leaves is beyond any limit below all that waited.
pub dropped-IsTree :
    (g : Facade) (d : Bool) (start : ℕ → Option ℕ) (f f' : Labels)
    → ((m : ℕ) → f' m ≡ unqueue (f m))
    → IsTree g d start f
    → IsTree g d start f'
dropped-IsTree g d start f f' drop t = record {
  ordered = λ n m l k e e' s s'. absurd (ground (arith, drop m));
  supported = λ n l e. elim (Option-cases (f n)) [
    | inl none_here ↦ absurd (ground (arith, drop n))
    | inr (k, h) ↦
        let same : l ≡ leave k = ground (arith, drop n) in
        subst (λ x. Supported g d start f' n x) (sym same)
          (elim (t.supported n k h) [
            | inl begun ↦ inl begun
            | inr (x, u, leads, hu, su, w) ↦ inr (x, u, leads, ground (arith, drop k.parent), su, w)
          ])
  ];
}

pub dropped-Advanced :
    (node key limit : ℕ) (f f1 f' : Labels)
    → Advanced node key limit f f1
    → ((m : ℕ) → f' m ≡ unqueue (f1 m))
    → ((n : ℕ) (l : Label) → f1 n ≡ some l → l.queued ≡ true → limit < l.weight)
    → Advanced node key limit f f'
dropped-Advanced node key limit f f1 f' a drop far = record {
  known = λ n l e. let (k, h, le) = a.known n l e in (leave k, ground (arith, drop n), le);
  kept = λ n l e s. ground (arith, drop n, a.kept n l e s);
  fresh = λ n l e s. elim (Option-cases (f1 n)) [
    | inl none_here ↦ absurd (ground (arith, drop n))
    | inr (k, h) ↦ elim (Bool-cases k.queued) [
      | inl waits ↦ inr (inr (ground (arith, drop n, far n k h waits)))
      | inr gone ↦ a.fresh n l (ground (arith, drop n)) s
    ]
  ];
  left = let (l, h, s) = a.left in (l, ground (arith, drop node), s);
  was = a.was;
}
