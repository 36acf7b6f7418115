-- ===== src/BlockManager/Capacity.antt =====
-- `can_allocate` and `num_free_blocks` of block_manager.py.
use paged_serve.Prelude.{
  ℕ, zero, suc, ◌+◌, ◌≤◌, ◌<◌, ◌≡◌, arith, List, [], ◌∷◌, ◌++◌, length, length-append,
  length-erase-le, count, count-append, count-erase, erase, ltb, if◌then◌else◌,
}
use paged_serve.PrefixCache
use paged_serve.Block.{blocks_needed}
use paged_serve.BlockManager.Invariant.{IsValid}
use paged_serve.BlockManager.{BlockManager, AllocStatus, num_free_blocks, can_allocate}

-- A list of distinct numbers below a bound is no longer than the bound.
length-distinct :
    (n : ℕ) (l : List ℕ) → ((x : ℕ) → count x l ≤ (if ltb x n then 1 else 0)) → length l ≤ n
length-distinct zero [] h = omega arith
length-distinct zero (y ∷ l) h = absurd (ground (arith, h y))
length-distinct (suc n) l h =
    let shorter =
      length-distinct n (erase n l) (λ x. ground (arith, h x, h n, count-erase x n l)) in
    omega (arith, shorter, length-erase-le n l)

-- On a valid allocator the available blocks, reclaimable ones included, are at most all blocks.
pub num_free_blocks-le : (m : BlockManager) → IsValid m → num_free_blocks m ≤ m.num_blocks
unfolding num_free_blocks PrefixCache.num_reclaimable
num_free_blocks-le m v = omega (
  arith,
  length-distinct m.num_blocks (m.free_blocks ++ m.prefix_cache.pool)
      (λ x. ground (arith, v.places x, count-append x m.free_blocks m.prefix_cache.pool)),
  length-append m.free_blocks m.prefix_cache.pool,
)

-- On a valid allocator, a number of tokens whose blocks fit the cache but not together with the
-- watermark is answered with `LATER`, however many blocks are free.
pub can_allocate_starves :
    (m : BlockManager) (num_tokens : ℕ)
    → IsValid m
    → blocks_needed m.block_size num_tokens ≤ m.num_blocks
    → m.num_blocks < blocks_needed m.block_size num_tokens + m.watermark_blocks
    → can_allocate m num_tokens ≡ AllocStatus.later
unfolding can_allocate
can_allocate_starves m num_tokens v fits tight = ground (arith, num_free_blocks-le m v)
