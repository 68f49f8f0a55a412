-- ===== src/DataStructures/BinaryHeap/Links.antt =====
-- osrm-backend/data_structures/binary_heap.hpp: what ties the tree to the inserted nodes, and the
-- state in the middle of a sift, where one place of the tree is a hole.
use maiden.Prelude.{ℕ, ◌/◌, ◌≤◌, ◌<◌, ◌≡◌, refl, ◌≢◌, ◌∙◌, ◌==◌, arith}
use maiden.DataStructures.BinaryHeap.{HeapElement, Arrays, move, settle}

module _ {ℓ} {D : Type ℓ} where
  -- A place of the tree refers to a node that refers back to it, with the same weight.
  pub record Linked (a : Arrays D) (k : ℕ) : Type 0 where
    pub inside : (a.heap.at k).index < a.inserted_nodes.size
    pub back : (a.inserted_nodes.at (a.heap.at k).index).key ≡ k
    pub same : (a.inserted_nodes.at (a.heap.at k).index).weight ≡ (a.heap.at k).weight

  -- A node with a key stands at that place of the tree.
  pub record Placed (a : Arrays D) (i : ℕ) : Type 0 where
    pub inside : (a.inserted_nodes.at i).key < a.heap.size
    pub here : (a.heap.at (a.inserted_nodes.at i).key).index ≡ i

  -- The tree and the nodes agree, but for the node `gone`, which is leaving; `gone` is the number of
  -- nodes when none is.
  pub record Inv (gone : ℕ) (a : Arrays D) : Type 0 where
    pub sentinel : (a.heap.at 0).weight ≡ 0
    pub nonempty : 0 < a.heap.size
    pub linked : (k : ℕ) → 0 < k → k < a.heap.size → Linked a k × ((a.heap.at k).index ≢ gone)
    pub placed :
        (i : ℕ)
        → i < a.inserted_nodes.size
        → i ≢ gone
        → (a.inserted_nodes.at i).key ≢ 0
        → Placed a i
    pub order :
        (k : ℕ) → 1 < k → k < a.heap.size → (a.heap.at (k / 2)).weight ≤ (a.heap.at k).weight

  -- The same with a hole at `hole`, which the element `e` will fill.
  pub record Hole (gone : ℕ) (a : Arrays D) (hole : ℕ) (e : HeapElement) : Type 0 where
    pub sentinel : (a.heap.at 0).weight ≡ 0
    pub above : 0 < hole
    pub below : hole < a.heap.size
    pub linked :
        (k : ℕ)
        → 0 < k
        → k < a.heap.size
        → k ≢ hole
        → Linked a k × ((a.heap.at k).index ≢ e.index) × ((a.heap.at k).index ≢ gone)
    pub placed :
        (i : ℕ)
        → i < a.inserted_nodes.size
        → i ≢ gone
        → i ≢ e.index
        → (a.inserted_nodes.at i).key ≢ 0
        → Placed a i × ((a.inserted_nodes.at i).key ≢ hole)
    pub inside : e.index < a.inserted_nodes.size
    pub kept : e.index ≢ gone
    pub same : (a.inserted_nodes.at e.index).weight ≡ e.weight
    pub live : (a.inserted_nodes.at e.index).key ≢ 0
    pub order :
        (k : ℕ)
        → 1 < k
        → k < a.heap.size
        → k ≢ hole
        → k / 2 ≢ hole
        → (a.heap.at (k / 2)).weight ≤ (a.heap.at k).weight
    pub bridged :
        (k : ℕ)
        → 1 < hole
        → k < a.heap.size
        → k / 2 ≡ hole
        → (a.heap.at (hole / 2)).weight ≤ (a.heap.at k).weight

  -- The element may rest at the hole as far as its children, its parent, are concerned.
  abbrev pub FitsBelow : Arrays D → ℕ → HeapElement → Type 0
  FitsBelow a hole e = (k : ℕ) → k < a.heap.size → k / 2 ≡ hole → e.weight ≤ (a.heap.at k).weight

  abbrev pub FitsAbove : Arrays D → ℕ → HeapElement → Type 0
  FitsAbove a hole e = 1 < hole → (a.heap.at (hole / 2)).weight ≤ e.weight

  pub settle-Inv :
      (gone : ℕ) (a : Arrays D) (hole : ℕ) (e : HeapElement)
      → Hole gone a hole e
      → FitsBelow a hole e
      → FitsAbove a hole e
      → Inv gone (settle a hole e)
  unfolding settle
  settle-Inv gone a hole e v b t = record {
    sentinel = ground (arith, v.sentinel, v.above);
    nonempty = ground (arith, v.below);
    linked = λ k p q. ground (arith, v.linked k, v.below, v.inside, v.kept, v.same);
    placed = λ i p q r. ground (arith, v.placed i, v.below, v.same);
    order = λ k p q. ground (arith, v.order k, b k, t, v.above);
  }

  -- Moving the element at `next`, a child or the parent of the hole, into the hole.
  pub move-Linked :
      (gone : ℕ) (a : Arrays D) (hole next : ℕ) (e : HeapElement)
      → Hole gone a hole e
      → 0 < next
      → next < a.heap.size
      → next ≢ hole
      → (k : ℕ) → 0 < k
      → k < a.heap.size
      → k ≢ next
      → Linked (move a hole next) k
        × (((move a hole next).heap.at k).index ≢ e.index)
        × (((move a hole next).heap.at k).index ≢ gone)
  unfolding move
  move-Linked gone a hole next e v p q r k pk qk rk =
      ground (arith, v.linked k, v.linked next, v.below)

  pub move-Placed :
      (gone : ℕ) (a : Arrays D) (hole next : ℕ) (e : HeapElement)
      → Hole gone a hole e
      → 0 < next
      → next < a.heap.size
      → next ≢ hole
      → (i : ℕ) → i < a.inserted_nodes.size
      → i ≢ gone
      → i ≢ e.index
      → ((move a hole next).inserted_nodes.at i).key ≢ 0
      → Placed (move a hole next) i × (((move a hole next).inserted_nodes.at i).key ≢ next)
  unfolding move
  move-Placed gone a hole next e v p q r i pi qi ri si =
      ground (arith, v.placed i, v.linked next, v.below)

  -- Sifting keeps the nodes, their weights and payloads, and which of them are in the tree.
  pub record Kept (a b : Arrays D) : Type ℓ where
    pub places : b.heap.size ≡ a.heap.size
    pub nodes : b.inserted_nodes.size ≡ a.inserted_nodes.size
    pub node : (i : ℕ) → (b.inserted_nodes.at i).node ≡ (a.inserted_nodes.at i).node
    pub weight : (i : ℕ) → (b.inserted_nodes.at i).weight ≡ (a.inserted_nodes.at i).weight
    pub payload : (i : ℕ) → (b.inserted_nodes.at i).payload ≡ (a.inserted_nodes.at i).payload
    pub left : (i : ℕ) → ((b.inserted_nodes.at i).key == 0) ≡ ((a.inserted_nodes.at i).key == 0)

  pub Kept-refl : (a : Arrays D) → Kept a a
  Kept-refl a = record {
    places = refl;
    nodes = refl;
    node = λ i. refl;
    weight = λ i. refl;
    payload = λ i. refl;
    left = λ i. refl;
  }

  pub Kept-trans : {a b c : Arrays D} → Kept a b → Kept b c → Kept a c
  Kept-trans v w = record {
    places = w.places ∙ v.places;
    nodes = w.nodes ∙ v.nodes;
    node = λ i. w.node i ∙ v.node i;
    weight = λ i. w.weight i ∙ v.weight i;
    payload = λ i. w.payload i ∙ v.payload i;
    left = λ i. w.left i ∙ v.left i;
  }

  pub move-Kept :
      (gone : ℕ) (a : Arrays D) (hole next : ℕ) (e : HeapElement)
      → Hole gone a hole e
      → 0 < next
      → next < a.heap.size
      → next ≢ hole
      → Kept a (move a hole next)
  unfolding move
  move-Kept gone a hole next e v p q r = record {
    places = refl;
    nodes = refl;
    node = λ i. ground arith;
    weight = λ i. ground arith;
    payload = λ i. ground arith;
    left = λ i. ground (arith, v.linked next, v.above);
  }

  pub settle-Kept :
      (gone : ℕ) (a : Arrays D) (hole : ℕ) (e : HeapElement)
      → Hole gone a hole e
      → Kept a (settle a hole e)
  unfolding settle
  settle-Kept gone a hole e v = record {
    places = refl;
    nodes = refl;
    node = λ i. ground arith;
    weight = λ i. ground arith;
    payload = λ i. ground arith;
    left = λ i. ground (arith, v.live, v.above);
  }
