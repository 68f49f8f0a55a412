-- ===== src/DataStructures/RangeTable.antt =====
-- osrm-backend/data_structures/range_table.hpp: lengths of adjacent ranges, in blocks of one absolute
-- value and `block_size` differences of one byte. A block is a function from its index; it holds
-- what the memory held before where it is not written.
pub mod Build
pub mod Fill
pub mod Table
pub mod Ranges
mod Tests
use maiden.Prelude.{
  ℕ, Option, none, some, leb, ◌&&◌, ◌||◌, ◌*◌, zero, suc, ◌+◌, ◌-◌, ◌/◌, ◌%◌, ◌^◌, Bool, true,
  false, Vector, push_back, ltb, ◌==◌, if◌then◌else◌,
}

abbrev pub Block : Type 0
Block = ℕ → ℕ

pub record RangeTable : Type 0 where
  pub block_offsets : Vector ℕ
  pub diff_blocks : Vector Block
  pub sum_lengths : ℕ

-- The variables of the constructor.
pub record Builder : Type 0 where
  pub block_offsets : Vector ℕ
  pub diff_blocks : Vector Block
  pub block : Block
  pub block_idx : ℕ
  pub last_length : ℕ
  pub lengths_prefix_sum : ℕ

-- `block[i] = length`, which keeps a byte of it.
abbrev pub set_byte : Block → ℕ → ℕ → Block
set_byte block i length x = if x == i then length % 2 ^ 8 else block x

module _ (block_size : ℕ) where
  -- The body of the loop over the lengths.
  unfoldable pub add_length : Builder → ℕ → Builder
  add_length b l =
      let absolute = b.block_idx == 0 in
      let offsets =
        if absolute then push_back b.block_offsets b.lengths_prefix_sum else b.block_offsets in
      let block = if absolute then b.block else set_byte b.block (b.block_idx - 1) b.last_length in
      record {
        block_offsets = offsets;
        diff_blocks =
            if block_size == b.block_idx then push_back b.diff_blocks block else b.diff_blocks;
        block = block;
        block_idx = (b.block_idx + 1) % (block_size + 1);
        last_length = l;
        lengths_prefix_sum = (b.lengths_prefix_sum + l) % 2 ^ 32;
      }

  -- The loop, over the first lengths of a vector.
  unfoldable pub add_lengths : Builder → (ℕ → ℕ) → ℕ → Builder
  unfolding add_length
  add_lengths b lengths zero = b
  add_lengths b lengths (suc k) = add_length (add_lengths b lengths k) (lengths k)

  -- The loop that fills the last block, on fuel.
  unfoldable pub fill_block : ℕ → Block → ℕ → ℕ → Block
  fill_block zero block block_idx last_length = block
  fill_block (suc fuel) block block_idx last_length =
      let rest =
        fill_block fuel (set_byte block (block_idx - 1) last_length)
          ((block_idx + 1) % (block_size + 1)) 0 in
      if 0 == block_idx then block else rest

  unfoldable pub finish : Builder → RangeTable
  unfolding fill_block
  finish b =
      let guarded = 0 == b.block_idx in
      let offsets =
        if guarded then push_back b.block_offsets b.lengths_prefix_sum else b.block_offsets in
      let block_idx = if guarded then 1 else b.block_idx in
      let last_length = if guarded then 0 else b.last_length in
      record {
        block_offsets = offsets;
        diff_blocks =
            push_back b.diff_blocks (fill_block (block_size + 1) b.block block_idx last_length);
        sum_lengths = b.lengths_prefix_sum;
      }

  -- The constructor from a vector of lengths; `raw` is the memory that it starts from.
  unfoldable pub new_range_table : Block → Vector ℕ → RangeTable
  unfolding add_lengths finish
  new_range_table raw lengths = finish (
      add_lengths
        (record {
          block_offsets = record { size = 0; at = raw };
          diff_blocks = record { size = 0; at = λ i. raw };
          block = raw;
          block_idx = 0;
          last_length = 0;
          lengths_prefix_sum = 0;
        })
        lengths.at lengths.size)

  -- PrefixSumAtIndex, given how many values it sums.
  unfoldable pub prefix_sum_at_index : ℕ → Block → ℕ
  prefix_sum_at_index zero block = 0
  prefix_sum_at_index (suc count) block = (prefix_sum_at_index count block + block count) % 2 ^ 32

  -- The begin and the end that GetRange computes.
  unfoldable pub range_ends : RangeTable → ℕ → ℕ × ℕ
  unfolding prefix_sum_at_index
  range_ends t id =
      let internal_idx = id % (block_size + 1) in
      let block_idx = id / (block_size + 1) in
      let block = t.diff_blocks.at block_idx in
      let offset = t.block_offsets.at block_idx in
      let begin_idx =
        if ltb 0 internal_idx
        then (offset + prefix_sum_at_index internal_idx block) % 2 ^ 32
        else offset in
      let end_idx =
        if ltb internal_idx block_size
        then (begin_idx + block internal_idx) % 2 ^ 32
        else t.block_offsets.at (block_idx + 1) in
      (begin_idx, end_idx)

  -- The assertions of GetRange on the indices, and on the range. The unsigned `size() - 1` of an empty
  -- vector is above every index.
  abbrev pub is_inside : RangeTable → ℕ → Bool
  is_inside t id =
      ltb id (t.block_offsets.size + t.diff_blocks.size * block_size)
      && ltb (id / (block_size + 1)) t.diff_blocks.size
      && (ltb (id % (block_size + 1)) block_size
          || (t.block_offsets.size == 0)
          || ltb (id / (block_size + 1)) (t.block_offsets.size - 1))

  abbrev pub is_within : RangeTable → ℕ × ℕ → Bool
  is_within t r = ltb r.0 t.sum_lengths && leb r.1 t.sum_lengths && leb r.0 r.1

  -- GetRange: `none` where an assertion fails.
  unfoldable pub get_range : RangeTable → ℕ → Option (ℕ × ℕ)
  unfolding range_ends
  get_range t id =
      let r = range_ends t id in if is_inside t id && is_within t r then some r else none
