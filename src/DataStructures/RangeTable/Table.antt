-- ===== src/DataStructures/RangeTable/Table.antt =====
-- osrm-backend/data_structures/range_table.hpp: a finished table, the last block included.
use mathlib.Core.Path.{subst}
use maiden.Prelude.{
  ℕ, suc, ◌+◌, ◌^◌, ◌≤◌, ◌<◌, ◌≡◌, sym, ap, ◌∙◌, true, false, ltb, ◌==◌, arith, Bool-cases, inl,
  inr,
}
use maiden.DataStructures.RangeTable.{RangeTable, Builder, fill_block, finish}
use maiden.DataStructures.RangeTable.Fill.{fill_block-below, fill_block-last}
use maiden.DataStructures.RangeTable.Build.{sum, start, start_mono, Built}

module _ (block_size : ℕ) (nonempty : 0 < block_size) where
  module _ (lengths : ℕ → ℕ) (n : ℕ) (bytes : (i : ℕ) → lengths i < 2 ^ 8)
      (fits : sum lengths n < 2 ^ 32) where
    -- A table of the first n lengths.
    pub record IsTable (t : RangeTable) : Type 0 where
      pub total : t.sum_lengths ≡ sum lengths n
      pub begun :
          (m : ℕ) → start block_size m ≤ n → (m < t.block_offsets.size) × (m < t.diff_blocks.size)
      pub offsets :
          (m : ℕ) → start block_size m ≤ n → t.block_offsets.at m ≡ sum lengths (start block_size m)
      pub blocks :
          (m i : ℕ)
          → i < block_size
          → start block_size m + i < n
          → t.diff_blocks.at m i ≡ lengths (start block_size m + i)

    -- A block is among those that have begun.
    among : (m j i : ℕ) → start block_size m ≤ start block_size j + i → i ≤ block_size → m ≤ j
    among m j i le small = elim (Bool-cases (ltb j m)) [
      | inl more ↦ absurd (omega (arith, start_mono block_size j m (ground arith)))
      | inr within ↦ ground arith
    ]

    last_block :
        (j : ℕ) (b : Builder)
        → Built block_size lengths n j b
        → (i : ℕ) → i < b.block_idx
        → fill_block block_size (block_size + 1) b.block b.block_idx b.last_length i
          ≡ lengths (start block_size j + i)
    last_block j b h i lt = elim (Bool-cases (i + 1 == b.block_idx)) [
      | inl now ↦
          let at : b.last_length ≡ lengths (start block_size j + i) =
            h.last (start block_size j + i) (ground (arith, h.place)) in
          let fuel : suc block_size ≡ block_size + 1 = omega arith in
          let set =
            fill_block-last block_size block_size b.block b.block_idx b.last_length i (ground arith)
              h.within (omega (arith, at, bytes (start block_size j + i))) in
          subst
            (λ k.
              fill_block block_size k b.block b.block_idx b.last_length i
              ≡ lengths (start block_size j + i))
            fuel (set ∙ at)
      | inr before ↦
          fill_block-below block_size (block_size + 1) b.block b.block_idx b.last_length i
            (ground arith) h.within
          ∙ h.current i (ground arith)
    ]

    guarded-IsTable :
        (j : ℕ) (b : Builder)
        → Built block_size lengths n j b
        → b.block_idx ≡ 0
        → IsTable (finish block_size b)
    unfolding finish
    guarded-IsTable j b h idx =
        let guarded : (0 == b.block_idx) ≡ true = ground arith in
        let count : b.block_offsets.size ≡ j = ground (arith, h.offsets_size) in
        let end : n ≡ start block_size j = omega (arith, h.place) in
        rw guarded (record {
          total = h.total;
          begun = λ m le.
              let within = among m j 0 (omega arith) (omega arith) in
              (omega (arith, count), omega (arith, h.blocks_size));
          offsets = λ m le. elim (Bool-cases (b.block_offsets.size == m)) [
            | inl now ↦
                let at : m ≡ j = ground (arith, count) in
                ground (arith, h.total, ap (sum lengths) (ap (start block_size) at ∙ sym end))
            | inr before ↦
                let within = among m j 0 (omega arith) (omega arith) in
                ground (arith, h.offsets m (ground (arith, count)))
          ];
          blocks = λ m i lt q. elim (Bool-cases (m == j)) [
            | inl now ↦
                let at : m ≡ j = ground arith in absurd (omega (arith, ap (start block_size) at))
            | inr before ↦
                let within = among m j 0 (omega arith) (omega arith) in
                ground (arith, h.blocks_size, h.blocks m i (ground arith) lt)
          ];
        })

    open-IsTable :
        (j : ℕ) (b : Builder)
        → Built block_size lengths n j b
        → 0 < b.block_idx
        → IsTable (finish block_size b)
    unfolding finish
    open-IsTable j b h idx =
        let unguarded : (0 == b.block_idx) ≡ false = ground arith in
        let count : b.block_offsets.size ≡ j + 1 = ground (arith, h.offsets_size) in
        rw unguarded (record {
          total = h.total;
          begun = λ m le.
              let within = among m j b.block_idx (omega (arith, h.place)) h.within in
              (omega (arith, count), omega (arith, h.blocks_size));
          offsets = λ m le.
              let within = among m j b.block_idx (omega (arith, h.place)) h.within in
              h.offsets m (omega (arith, count));
          blocks = λ m i lt q.
              let within = among m j b.block_idx (omega (arith, h.place)) h.within in
              elim (Bool-cases (m == j)) [
                | inl now ↦
                    let at : m ≡ j = ground arith in
                    let same : start block_size m ≡ start block_size j = ap (start block_size) at in
                    let value = last_block j b h i (omega (arith, h.place)) in
                    ground (arith, h.blocks_size, value, same)
                | inr before ↦ ground (arith, h.blocks_size, h.blocks m i (ground arith) lt)
              ];
        })

    pub finish-IsTable :
        (j : ℕ) (b : Builder) → Built block_size lengths n j b → IsTable (finish block_size b)
    finish-IsTable j b h = elim (Bool-cases (b.block_idx == 0)) [
      | inl guarded ↦ guarded-IsTable j b h (ground arith)
      | inr open_block ↦ open-IsTable j b h (ground arith)
    ]
