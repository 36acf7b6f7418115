-- ===== src/Block/Ceiling.antt =====
-- `blocks_needed` of block.py.
use paged_serve.Prelude.{ℕ, ◌+◌, ◌*◌, ◌≤◌, ◌<◌, arith}
use paged_serve.Block.{blocks_needed}

-- With a positive block size, the needed blocks hold the tokens, and less than one block of slots
-- is left over.
pub blocks_needed_bounds :
    (block_size n : ℕ)
    → 0 < block_size
    → (n ≤ blocks_needed block_size n * block_size)
      × (blocks_needed block_size n * block_size < n + block_size)
unfolding blocks_needed
blocks_needed_bounds block_size n h = grind arith

-- With a positive block size, any number of blocks that holds the tokens is at least the number
-- that `blocks_needed` returns.
pub blocks_needed_least :
    (block_size n k : ℕ) → 0 < block_size → n ≤ k * block_size → blocks_needed block_size n ≤ k
blocks_needed_least block_size n k h fits = grind (arith, blocks_needed_bounds block_size n h)

-- More tokens never need fewer blocks.
pub blocks_needed_mono :
    (block_size m n : ℕ)
    → 0 < block_size
    → m ≤ n
    → blocks_needed block_size m ≤ blocks_needed block_size n
blocks_needed_mono block_size m n h le =
    blocks_needed_least block_size m _ h (grind (arith, blocks_needed_bounds block_size n h))

-- One more token needs at most one more block.
pub blocks_needed_suc :
    (block_size n : ℕ)
    → 0 < block_size
    → blocks_needed block_size (n + 1) ≤ blocks_needed block_size n + 1
blocks_needed_suc block_size n h =
    blocks_needed_least block_size (n + 1) _ h (grind (arith, blocks_needed_bounds block_size n h))
