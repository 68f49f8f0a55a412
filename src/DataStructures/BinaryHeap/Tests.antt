-- ===== src/DataStructures/BinaryHeap/Tests.antt =====
-- Runs of the heap: two insertions into a cleared heap, and what can be done then.
use mathlib.Core.List.{[]}
use maiden.Prelude.{ℕ, ◌≡◌, refl, false, arith}
use maiden.DataStructures.BinaryHeap.Storage.{map_storage, map_peek, map_assign}
use maiden.DataStructures.BinaryHeap.{
  BinaryHeap, clear, size, empty, insert, was_removed, was_inserted, delete_min, delete_all,
  decrease_key, upheap, downheap, drop_root,
}
use maiden.DataStructures.BinaryHeap.View.{IsValid}
use maiden.DataStructures.BinaryHeap.Insert.{clear_correct, Inserted, insert_correct}
use maiden.DataStructures.BinaryHeap.Remove.{Deleted, delete_min_correct}
use maiden.DataStructures.BinaryHeap.Update.{Decreased, decrease_key_correct}
use maiden.DataStructures.BinaryHeap.RemoveAll.{delete_all_correct}

-- Memory as it may be before the heap is cleared.
raw : BinaryHeap map_storage ℕ
raw = record {
  arrays = record {
    inserted_nodes = record {
      size = 1;
      at = λ i. record { node = 3; key = 1; weight = 8; payload = 0 };
    };
    heap = record { size = 5; at = λ i. record { index = 2; weight = 7 } };
  };
  node_index = [];
}

fresh : BinaryHeap map_storage ℕ
fresh = clear map_storage raw

one : BinaryHeap map_storage ℕ
unfolding fresh
one = insert map_storage fresh 10 5 100

two : BinaryHeap map_storage ℕ
unfolding one
two = insert map_storage one 11 3 101

fresh-IsValid : IsValid fresh
unfolding fresh
fresh-IsValid = (clear_correct map_storage raw).0

insert_correct_example : Inserted map_storage fresh 10 5 100 one
unfolding one
insert_correct_example =
    insert_correct map_storage fresh 10 5 100 fresh-IsValid ((clear_correct map_storage raw).2 10)

two-Inserted : Inserted map_storage one 11 3 101 two
unfolding two raw clear insert upheap was_inserted map_peek map_assign
two-Inserted =
    insert_correct map_storage one 11 3 101
      (insert_correct map_storage fresh 10 5 100 fresh-IsValid refl).valid refl

clear_correct_example :
    IsValid fresh
    × (size map_storage fresh ≡ 0)
    × ((n : ℕ) → was_inserted map_storage fresh n ≡ false)
unfolding fresh
clear_correct_example = clear_correct map_storage raw

-- The lighter node comes out first.
delete_min_run : (delete_min map_storage two).0 ≡ 11
unfolding two raw clear insert upheap delete_min drop_root downheap map_peek map_assign
delete_min_run = refl

delete_min_correct_example :
    Deleted map_storage two
      (delete_min map_storage two).0
      (delete_min map_storage two).1
      (two.heap.at 1).index
unfolding two raw clear insert upheap empty map_peek map_assign
delete_min_correct_example = delete_min_correct map_storage two two-Inserted.valid refl

decrease_key_correct_example : Decreased map_storage two 0 1 (decrease_key map_storage two 10 1)
unfolding two raw clear insert upheap was_inserted was_removed map_peek map_assign
decrease_key_correct_example =
    decrease_key_correct map_storage two 10 1 two-Inserted.valid refl refl (omega arith)

delete_all_correct_example : IsValid (delete_all map_storage two)
delete_all_correct_example = (delete_all_correct map_storage two two-Inserted.valid).0
