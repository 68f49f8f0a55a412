-- ===== src/DataStructures/RangeTable/Build.antt =====
-- osrm-backend/data_structures/range_table.hpp: the constructor, and GetRange on what it makes.
use native.Mathlib.Nat.{mod-eq_of_lt, mod_self}
use maiden.Prelude.{
  ℕ, zero, suc, ◌+◌, ◌-◌, ◌*◌, ◌%◌, ◌^◌, ◌≤◌, ◌<◌, ◌≡◌, sym, ap, ◌∙◌, true, false, ltb, ◌==◌,
  if◌then◌else◌, arith, Bool-cases, inl, inr,
}
use maiden.DataStructures.RangeTable.{Builder, set_byte, add_length, add_lengths}

-- The sum of the first lengths.
unfoldable pub sum : (ℕ → ℕ) → ℕ → ℕ
sum lengths zero = 0
sum lengths (suc k) = sum lengths k + lengths k

pub sum_mono : (lengths : ℕ → ℕ) (k n : ℕ) → k ≤ n → sum lengths k ≤ sum lengths n
unfolding sum
sum_mono lengths k zero le = ground (arith, le)
sum_mono lengths k (suc n) le = elim (Bool-cases (k == suc n)) [
  | inl same ↦ ground arith
  | inr less ↦ omega (arith, sum_mono lengths k n (ground arith))
]

module _ (block_size : ℕ) where
  -- The first index of a block.
  unfoldable pub start : ℕ → ℕ
  start zero = 0
  start (suc j) = start j + (block_size + 1)

  pub start-mul : (j : ℕ) → start j ≡ (block_size + 1) * j
  unfolding start
  start-mul zero = grind arith
  start-mul (suc j) = grind (arith, start-mul j)

  pub start_mono : (i j : ℕ) → i < j → start i + (block_size + 1) ≤ start j
  unfolding start
  start_mono i zero lt = absurd (omega arith)
  start_mono i (suc j) lt = elim (Bool-cases (i == j)) [
    | inl same ↦ ground arith
    | inr less ↦ omega (arith, start_mono i j (ground arith))
  ]

  pub next_within : (i : ℕ) → i < block_size → (i + 1) % (block_size + 1) ≡ i + 1
  next_within i lt = mod-eq_of_lt (omega arith)

  pub next_block : (block_size + 1) % (block_size + 1) ≡ 0
  next_block = mod_self (block_size + 1)

  module _ (lengths : ℕ → ℕ) where
    -- After `k` lengths, of which the last stands at `block_idx - 1` of the block `j`.
    pub record Built (k j : ℕ) (b : Builder) : Type 0 where
      pub place : k ≡ start j + b.block_idx
      pub within : b.block_idx ≤ block_size
      pub total : b.lengths_prefix_sum ≡ sum lengths k
      pub last : (i : ℕ) → i + 1 ≡ k → b.last_length ≡ lengths i
      pub offsets_size : b.block_offsets.size ≡ (if b.block_idx == 0 then j else j + 1)
      pub blocks_size : b.diff_blocks.size ≡ j
      pub offsets :
          (m : ℕ) → m < b.block_offsets.size → b.block_offsets.at m ≡ sum lengths (start m)
      pub blocks : (m i : ℕ) → m < j → i < block_size → b.diff_blocks.at m i ≡ lengths (start m + i)
      pub current : (i : ℕ) → i + 1 < b.block_idx → b.block i ≡ lengths (start j + i)

    module _ (bytes : (i : ℕ) → lengths i < 2 ^ 8) (nonempty : 0 < block_size) where
      -- What the block holds once the last length has been set.
      set-current :
          (k j : ℕ) (b : Builder)
          → Built k j b
          → (i : ℕ) → i < b.block_idx
          → set_byte b.block (b.block_idx - 1) b.last_length i ≡ lengths (start j + i)
      set-current k j b h i lt = elim (Bool-cases (i == (b.block_idx - 1))) [
        | inl here ↦
            ground (arith, h.last (start j + i) (ground (arith, h.place)), bytes (start j + i))
        | inr apart ↦ ground (arith, h.current i (ground arith))
      ]

      absolute-Built :
          (k j : ℕ) (b : Builder)
          → sum lengths (suc k) < 2 ^ 32
          → Built k j b
          → b.block_idx ≡ 0
          → Built (suc k) j (add_length block_size b (lengths k))
      unfolding add_length sum
      absolute-Built k j b fits h idx =
          let turn : (b.block_idx + 1) % (block_size + 1) ≡ 1 =
            ap (λ x. (x + 1) % (block_size + 1)) idx ∙ next_within 0 nonempty in
          let absolute : (b.block_idx == 0) ≡ true = ground arith in
          let unfilled : (block_size == b.block_idx) ≡ false = ground arith in
          let here : k ≡ start j = omega (arith, h.place) in
          let count : b.block_offsets.size ≡ j = ground (arith, h.offsets_size) in
          rw (turn, absolute, unfilled)
            (record {
              place = omega arith;
              within = omega arith;
              total = ground (arith, h.total, fits);
              last = λ i e. ap lengths (omega arith);
              offsets_size = ground (arith, h.offsets_size);
              blocks_size = h.blocks_size;
              offsets = λ m lt. elim (Bool-cases (b.block_offsets.size == m)) [
                | inl now ↦
                    let at : m ≡ j = ground (arith, count) in
                    let same : start m ≡ k = ap start at ∙ sym here in
                    ground (arith, h.total, ap (sum lengths) same)
                | inr before ↦ ground (arith, h.offsets m)
              ];
              blocks = h.blocks;
              current = λ i lt. absurd (omega arith);
            })

      within-Built :
          (k j : ℕ) (b : Builder)
          → sum lengths (suc k) < 2 ^ 32
          → Built k j b
          → 0 < b.block_idx
          → b.block_idx < block_size
          → Built (suc k) j (add_length block_size b (lengths k))
      unfolding add_length sum
      within-Built k j b fits h more less =
          let turn = next_within b.block_idx less in
          let relative : (b.block_idx == 0) ≡ false = ground arith in
          let unfilled : (block_size == b.block_idx) ≡ false = ground arith in
          rw (turn, relative, unfilled)
            (record {
              place = omega (arith, h.place);
              within = omega arith;
              total = ground (arith, h.total, fits);
              last = λ i e. ap lengths (omega arith);
              offsets_size = ground (arith, h.offsets_size);
              blocks_size = h.blocks_size;
              offsets = h.offsets;
              blocks = h.blocks;
              current = λ i lt. set-current k j b h i (omega arith);
            })

      full-Built :
          (k j : ℕ) (b : Builder)
          → sum lengths (suc k) < 2 ^ 32
          → Built k j b
          → b.block_idx ≡ block_size
          → Built (suc k) (suc j) (add_length block_size b (lengths k))
      unfolding add_length sum start
      full-Built k j b fits h full =
          let turn : (b.block_idx + 1) % (block_size + 1) ≡ 0 =
            ap (λ x. (x + 1) % (block_size + 1)) full ∙ next_block in
          let relative : (b.block_idx == 0) ≡ false = ground arith in
          let filled : (block_size == b.block_idx) ≡ true = ground arith in
          rw (turn, relative, filled)
            (record {
              place = omega (arith, h.place);
              within = omega arith;
              total = ground (arith, h.total, fits);
              last = λ i e. ap lengths (omega arith);
              offsets_size = ground (arith, h.offsets_size);
              blocks_size = ground (arith, h.blocks_size);
              offsets = h.offsets;
              blocks = λ m i lt q. elim (Bool-cases (b.diff_blocks.size == m)) [
                | inl now ↦
                    let at : m ≡ j = ground (arith, h.blocks_size) in
                    ground (arith, set-current k j b h i (omega arith), ap start at)
                | inr before ↦ ground (arith, h.blocks m i (ground (arith, h.blocks_size)) q)
              ];
              current = λ i lt. absurd (omega arith);
            })

      pub add_lengths-Built :
          (b0 : Builder)
          → Built 0 0 b0
          → (k : ℕ) → sum lengths k < 2 ^ 32
          → (j : ℕ) × Built k j (add_lengths block_size b0 lengths k)
      unfolding add_lengths sum
      add_lengths-Built b0 h zero fits = (0, h)
      add_lengths-Built b0 h (suc k) fits =
          let (j, r) = add_lengths-Built b0 h k (omega (arith, fits)) in
          let b = add_lengths block_size b0 lengths k in
          elim (Bool-cases (b.block_idx == 0)) [
            | inl absolute ↦ (j, absolute-Built k j b fits r (ground arith))
            | inr relative ↦ elim (Bool-cases (ltb b.block_idx block_size)) [
              | inl less ↦ (j, within-Built k j b fits r (ground arith) (ground arith))
              | inr full ↦ (suc j, full-Built k j b fits r (ground (arith, r.within)))
            ]
          ]
