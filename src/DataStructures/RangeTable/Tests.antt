-- ===== src/DataStructures/RangeTable/Tests.antt =====
-- Five lengths in blocks of two.
use maiden.Prelude.{◌*◌, ◌-◌, some, none, ℕ, ◌%◌, ◌≡◌, refl, Vector, arith}
use maiden.DataStructures.RangeTable.{Block, new_range_table, get_range}
use maiden.DataStructures.RangeTable.Build.{sum}
use maiden.DataStructures.RangeTable.Ranges.{new_range_table-get_range}

abbrev five_lengths : Vector ℕ
five_lengths = record { size = 5; at = λ i. i % 7 }

abbrev raw_block : Block
raw_block i = 200

fourth : get_range 2 (new_range_table 2 raw_block five_lengths) 4 ≡ some (6, 10)
unfolding get_range new_range_table
fourth = refl

new_range_table-get_range_example :
    get_range 2 (new_range_table 2 raw_block five_lengths) 4
    ≡ some (sum five_lengths.at 4, sum five_lengths.at 5)
unfolding sum
new_range_table-get_range_example =
    new_range_table-get_range 2 raw_block five_lengths (omega arith) (λ i. omega arith)
      (omega arith) 4 (omega arith)

-- The range of a last length of zero begins where all ranges end.
empty_last :
    get_range 2 (new_range_table 2 raw_block (record { size = 2; at = λ i. 3 * (1 - i) })) 1 ≡ none
unfolding get_range new_range_table
empty_last = refl
