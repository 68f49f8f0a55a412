-- ===== src/DataStructures/RangeTable/Ranges.antt =====
-- osrm-backend/data_structures/range_table.hpp: GetRange.
use native.Mathlib.Nat.{mod-lt, div-add-mod}
use maiden.Prelude.{
  ℕ, ◌*◌, some, none, ◌&&◌, Bool, zero, suc, ◌+◌, ◌/◌, ◌%◌, ◌^◌, ◌≤◌, ◌<◌, ◌≡◌, refl, ap, ◌∙◌, true,
  Vector, ltb, if◌then◌else◌, arith, Bool-cases, inl, inr,
}
use maiden.DataStructures.RangeTable.{
  RangeTable, Builder, Block, add_lengths, finish, new_range_table, prefix_sum_at_index, get_range,
  range_ends, is_inside, is_within,
}
use maiden.DataStructures.RangeTable.Table.{IsTable, finish-IsTable}
use maiden.DataStructures.RangeTable.Build.{
  sum, sum_mono, start, start-mul, Built, add_lengths-Built,
}

module _ (block_size : ℕ) (nonempty : 0 < block_size) where
  module _ (lengths : ℕ → ℕ) (n : ℕ) (bytes : (i : ℕ) → lengths i < 2 ^ 8)
      (fits : sum lengths n < 2 ^ 32) where
    start-suc : (m : ℕ) → start block_size (suc m) ≡ start block_size m + (block_size + 1)
    unfolding start
    start-suc m = refl

    suc_right : (m count : ℕ) → m + suc count ≡ suc (m + count)
    suc_right m count = omega arith

    -- Partial sums of a block, from the sum before it.
    prefix-sum :
        (block : Block) (m count : ℕ)
        → ((i : ℕ) → i < count → block i ≡ lengths (m + i))
        → m + count ≤ n
        → sum lengths m + prefix_sum_at_index block_size count block ≡ sum lengths (m + count)
    unfolding prefix_sum_at_index sum
    prefix-sum block m zero at le =
        let same : m ≡ m + zero = omega arith in omega (arith, ap (sum lengths) same)
    prefix-sum block m (suc count) at le =
        let rest = prefix-sum block m count (λ i lt. at i (omega arith)) (omega arith) in
        let next : sum lengths (m + suc count) ≡ sum lengths (m + count) + lengths (m + count) =
          ap (sum lengths) (suc_right m count) in
        let bound = sum_mono lengths (m + suc count) n le in
        ground (arith, rest, next, bound, fits, at count (omega arith))

    begin_of :
        (t : RangeTable)
        → IsTable block_size nonempty lengths n bytes fits t
        → (m i : ℕ) → start block_size m + i < n
        → i ≤ block_size
        → (if ltb 0 i
            then (t.block_offsets.at m + prefix_sum_at_index block_size i (t.diff_blocks.at m))
              % 2 ^ 32
            else t.block_offsets.at m)
          ≡ sum lengths (start block_size m + i)
    begin_of t h m i lt le =
        let offset = h.offsets m (omega arith) in
        let partial =
          prefix-sum (t.diff_blocks.at m) (start block_size m) i
            (λ x q. h.blocks m x (omega arith) (omega arith)) (omega arith) in
        let bound = sum_mono lengths (start block_size m + i) n (omega arith) in
        elim (Bool-cases (ltb 0 i)) [
          | inl more ↦ rw more (ground (arith, offset, partial, bound, fits))
          | inr first ↦ rw first (offset ∙ ap (sum lengths) (ground arith))
        ]

    end_of :
        (t : RangeTable)
        → IsTable block_size nonempty lengths n bytes fits t
        → (m i : ℕ) → start block_size m + i < n
        → i ≤ block_size
        → (if ltb i block_size
            then (sum lengths (start block_size m + i) + t.diff_blocks.at m i) % 2 ^ 32
            else t.block_offsets.at (m + 1))
          ≡ sum lengths (suc (start block_size m + i))
    unfolding sum start
    end_of t h m i lt le =
        let bound = sum_mono lengths (suc (start block_size m + i)) n (omega arith) in
        elim (Bool-cases (ltb i block_size)) [
          | inl within ↦ rw within (ground (arith, h.blocks m i (ground arith) lt, bound, fits))
          | inr last ↦
              let next : start block_size (suc m) ≡ suc (start block_size m + i) = ground arith in
              let at : t.block_offsets.at (m + 1) ≡ t.block_offsets.at (suc m) =
                ap t.block_offsets.at (omega arith) in
              rw last (at ∙ (h.offsets (suc m) (omega (arith, next)) ∙ ap (sum lengths) next))
        ]

    range_ends-IsTable :
        (t : RangeTable)
        → IsTable block_size nonempty lengths n bytes fits t
        → (id : ℕ) → id < n
        → range_ends block_size t id ≡ (sum lengths id, sum lengths (suc id))
    unfolding range_ends
    range_ends-IsTable t h id lt =
        let i = id % (block_size + 1) in
        let m = id / (block_size + 1) in
        let split : start block_size m + i ≡ id =
          omega (arith, start-mul block_size m, div-add-mod id (block_size + 1)) in
        let small : i < block_size + 1 = mod-lt id (omega arith) in
        let begin = begin_of t h m i (omega (arith, split)) (omega (arith, small)) in
        let end = end_of t h m i (omega (arith, split)) (omega (arith, small)) in
        rw (begin, end) (ap (λ x. (sum lengths x, sum lengths (suc x))) split)

    index_below :
        (id m i a b : ℕ)
        → (block_size + 1) * m + i ≡ id
        → i ≤ block_size
        → m < a
        → m < b
        → id < a + b * block_size
    index_below id m i a b split small p q =
        let whole : suc m * block_size ≤ b * block_size = grind (arith, q) in grind (arith, whole)

    is_inside-IsTable :
        (t : RangeTable)
        → IsTable block_size nonempty lengths n bytes fits t
        → (id : ℕ) → id < n
        → is_inside block_size t id ≡ true
    is_inside-IsTable t h id lt =
        let i = id % (block_size + 1) in
        let m = id / (block_size + 1) in
        let whole = div-add-mod id (block_size + 1) in
        let split : start block_size m + i ≡ id = omega (arith, start-mul block_size m, whole) in
        let small : i < block_size + 1 = mod-lt id (omega arith) in
        let here = h.begun m (omega (arith, split)) in
        let below =
          index_below id m i t.block_offsets.size t.diff_blocks.size whole (omega (arith, small))
            here.0 here.1 in
        let next : (i ≡ block_size) → suc m < t.block_offsets.size =
          λ full. (h.begun (suc m) (omega (arith, split, start-suc m))).0 in
        elim (Bool-cases (ltb i block_size)) [
          | inl within ↦ ground (arith, below, here, within)
          | inr last ↦ ground (arith, below, here, next (ground (arith, small)))
        ]

    -- The assertions of GetRange for the range that it has computed.
    checked :
        (t : RangeTable) (r : ℕ × ℕ) (inside : Bool) (a b : ℕ)
        → r ≡ (a, b)
        → inside ≡ true
        → t.sum_lengths ≡ sum lengths n
        → a ≤ b
        → b ≤ sum lengths n
        → (if inside && is_within block_size t r then some r else none)
          ≡ (if ltb a (sum lengths n) then some (a, b) else none)
    checked t r inside a b eq h total le below = rw (h, eq, total) (ground (arith, le, below))

    get_range-IsTable :
        (t : RangeTable)
        → IsTable block_size nonempty lengths n bytes fits t
        → (id : ℕ) → id < n
        → get_range block_size t id ≡ (
            if ltb (sum lengths id) (sum lengths n)
            then some (sum lengths id, sum lengths (suc id))
            else none)
    unfolding get_range sum
    get_range-IsTable t h id lt =
        let ends = range_ends-IsTable t h id lt in
        let inside = is_inside-IsTable t h id lt in
        let bound = sum_mono lengths (suc id) n lt in
        checked t (range_ends block_size t id) (is_inside block_size t id) (sum lengths id)
          (sum lengths (suc id)) ends inside h.total (omega arith) bound

-- For lengths of one byte each whose sum fits into 32 bits, and blocks that are not empty, GetRange of a
-- new table gives for each length the range from the sum of the lengths before it to that sum with it,
-- if that range begins below the sum of all lengths; it fails an assertion for an empty range at the end.
pub new_range_table-get_range :
    (block_size : ℕ) (raw : Block) (lengths : Vector ℕ)
    → 0 < block_size
    → ((i : ℕ) → lengths.at i < 2 ^ 8)
    → sum lengths.at lengths.size < 2 ^ 32
    → (id : ℕ) → id < lengths.size
    → get_range block_size (new_range_table block_size raw lengths) id ≡ (
        if ltb (sum lengths.at id) (sum lengths.at lengths.size)
        then some (sum lengths.at id, sum lengths.at (suc id))
        else none)
unfolding new_range_table sum start
new_range_table-get_range block_size raw lengths nonempty bytes fits id lt =
    let b0 : Builder = record {
      block_offsets = record { size = 0; at = raw };
      diff_blocks = record { size = 0; at = λ i. raw };
      block = raw;
      block_idx = 0;
      last_length = 0;
      lengths_prefix_sum = 0;
    } in
    let h0 : Built block_size lengths.at 0 0 b0 = record {
      place = refl;
      within = omega arith;
      total = refl;
      last = λ i e. absurd (omega arith);
      offsets_size = refl;
      blocks_size = refl;
      offsets = λ m q. absurd (omega arith);
      blocks = λ m i q r. absurd (omega arith);
      current = λ i q. absurd (omega arith);
    } in
    let (j, h) = add_lengths-Built block_size lengths.at bytes nonempty b0 h0 lengths.size fits in
    let b = add_lengths block_size b0 lengths.at lengths.size in
    get_range-IsTable block_size nonempty lengths.at lengths.size bytes fits (finish block_size b)
      (finish-IsTable block_size nonempty lengths.at lengths.size bytes fits j b h) id lt
