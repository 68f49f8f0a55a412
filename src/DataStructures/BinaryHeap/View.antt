-- ===== src/DataStructures/BinaryHeap/View.antt =====
-- osrm-backend/data_structures/binary_heap.hpp: what a client sees of the heap: for each insertion its
-- node, weight and payload, and whether it is still queued.
use maiden.Prelude.{ℕ, ◌<◌, ◌≡◌, Bool, not, arith, ◌==◌}
use maiden.DataStructures.BinaryHeap.Storage.{IndexStorage}
use maiden.DataStructures.BinaryHeap.{Arrays, BinaryHeap}
use maiden.DataStructures.BinaryHeap.Links.{Inv, Kept}

-- One insertion.
pub record Entry (D : Type 0) : Type 0 where
  pub node : ℕ
  pub weight : ℕ
  pub payload : D
  pub queued : Bool

module _ {D : Type 0} where
  abbrev pub view : Arrays D → ℕ → Entry D
  view a i = record {
    node = (a.inserted_nodes.at i).node;
    weight = (a.inserted_nodes.at i).weight;
    payload = (a.inserted_nodes.at i).payload;
    queued = not ((a.inserted_nodes.at i).key == 0);
  }

  pub view-Kept : {a b : Arrays D} → Kept a b → (i : ℕ) → view b i ≡ view a i
  view-Kept k i = ground (arith, k.node i, k.weight i, k.payload i, k.left i)

module _ {D : Type 0} {S : IndexStorage} where
  -- The tree is in order and agrees with the nodes, and the storage finds every insertion.
  pub record IsValid (h : BinaryHeap S D) : Type 0 where
    pub inv : Inv h.inserted_nodes.size h.arrays
    pub indexed :
        (i : ℕ)
        → i < h.inserted_nodes.size
        → S.peek_index h.node_index (h.inserted_nodes.at i).node ≡ i
