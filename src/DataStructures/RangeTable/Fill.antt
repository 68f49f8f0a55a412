-- ===== src/DataStructures/RangeTable/Fill.antt =====
-- osrm-backend/data_structures/range_table.hpp: the loop that fills the last block.
use maiden.Prelude.{
  ℕ, zero, suc, ◌+◌, ◌-◌, ◌%◌, ◌^◌, ◌≤◌, ◌<◌, ◌≡◌, refl, ap, ◌∙◌, false, ◌==◌, arith, Bool-cases,
  inl, inr,
}
use maiden.DataStructures.RangeTable.{Block, set_byte, fill_block}
use maiden.DataStructures.RangeTable.Build.{next_within, next_block}

module _ (block_size : ℕ) where
  fill_block-stopped :
      (fuel : ℕ) (block : Block) (last_length : ℕ)
      → fill_block block_size fuel block 0 last_length ≡ block
  unfolding fill_block
  fill_block-stopped zero block last_length = refl
  fill_block-stopped (suc fuel) block last_length = refl

  -- Filling stops at the end of the block and leaves what is below its index.
  pub fill_block-below :
      (fuel : ℕ) (block : Block) (block_idx last_length i : ℕ)
      → i + 1 < block_idx
      → block_idx ≤ block_size
      → fill_block block_size fuel block block_idx last_length i ≡ block i
  unfolding fill_block
  fill_block-below zero block block_idx last_length i lt le = refl
  fill_block-below (suc fuel) block block_idx last_length i lt le =
      let next = set_byte block (block_idx - 1) last_length in
      let on : (0 == block_idx) ≡ false = ground arith in
      let kept : next i ≡ block i = ground arith in
      elim (Bool-cases (block_idx == block_size)) [
        | inl last ↦
            let turn : (block_idx + 1) % (block_size + 1) ≡ 0 =
              ap (λ x. (x + 1) % (block_size + 1)) (ground arith) ∙ next_block block_size in
            rw (on, turn) (ap (λ f. f i) (fill_block-stopped fuel next 0) ∙ kept)
        | inr less ↦
            let turn = next_within block_size block_idx (ground arith) in
            rw (on, turn)
              (fill_block-below fuel next (block_idx + 1) 0 i (omega arith) (ground arith) ∙ kept)
      ]

  -- The first value that it sets is the last length.
  pub fill_block-last :
      (fuel : ℕ) (block : Block) (block_idx last_length i : ℕ)
      → i + 1 ≡ block_idx
      → block_idx ≤ block_size
      → last_length < 2 ^ 8
      → fill_block block_size (suc fuel) block block_idx last_length i ≡ last_length
  unfolding fill_block
  fill_block-last fuel block block_idx last_length i e le byte =
      let next = set_byte block (block_idx - 1) last_length in
      let on : (0 == block_idx) ≡ false = ground arith in
      let set : next i ≡ last_length = ground arith in
      elim (Bool-cases (block_idx == block_size)) [
        | inl last ↦
            let turn : (block_idx + 1) % (block_size + 1) ≡ 0 =
              ap (λ x. (x + 1) % (block_size + 1)) (ground arith) ∙ next_block block_size in
            rw (on, turn) (ap (λ f. f i) (fill_block-stopped fuel next 0) ∙ set)
        | inr less ↦
            let turn = next_within block_size block_idx (ground arith) in
            rw (on, turn)
              (fill_block-below fuel next (block_idx + 1) 0 i (omega arith) (ground arith) ∙ set)
      ]
