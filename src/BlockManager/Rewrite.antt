-- ===== src/BlockManager/Rewrite.antt =====
-- A prompt that is matched as a whole: what `allocate` of block_manager.py leaves to be run.
use paged_serve.Prelude.{
  ℕ, ◌+◌, ◌*◌, ◌/◌, ◌≤◌, ◌<◌, ◌≡◌, ◌≢◌, ap, ◌∙◌, arith, List, some, none, Option, length, get_elem?,
  get_elem?_of_lt, get_elem?-append_lt, count-get_elem?, ok,
}
use paged_serve.Block.{BlockTable, blocks_needed}
use paged_serve.BlockManager.{BlockManager, num_free_blocks, find_table, allocate}
use paged_serve.BlockManager.Invariant.{IsValid}
use paged_serve.BlockManager.Allocate.{reusable, allocate-Allocated, reusable-indexed}

div-lt : (p n c : ℕ) → p < c * n → p / n < c
div-lt p n c h = grind arith

module _ (digest : List ℕ → ℕ) where
  -- On a valid allocator with a positive block size, for a sequence without a table whose blocks
  -- are available, if the blocks that the prompt's leading run of indexed hashes finds hold
  -- exactly its tokens, of which there is one at least, then `allocate` returns and reports one
  -- token less than there are. So the last token is left to be run, and the table's block for its
  -- position was indexed in the prefix cache before the call.
  pub allocate_rewrites :
      (k tokens : ℕ) (ids : Option (List ℕ)) (m : BlockManager)
      → IsValid m
      → 0 < m.block_size
      → find_table k m.block_tables ≡ none
      → blocks_needed m.block_size tokens ≤ num_free_blocks m
      → 0 < tokens
      → length (reusable digest (blocks_needed m.block_size tokens) ids m) * m.block_size ≡ tokens
      → (t : BlockTable) × (cached : ℕ) × (b : ℕ) × (n : BlockManager) × (allocate digest k tokens
            ids m
          ≡ (ok (t, cached), n))
        × (cached + 1 ≡ tokens)
        × (get_elem? t.blocks (cached / m.block_size) ≡ some b)
        × (m.prefix_cache.by_block b ≢ none)
  allocate_rewrites k tokens ids m v h absent enough pos full =
      let bs = reusable digest (blocks_needed m.block_size tokens) ids m in
      let (t, cached, n, e, a) = allocate-Allocated digest k tokens ids m v h absent enough in
      let back : cached + 1 ≡ tokens = ground (arith, a.reused, full) in
      let within : cached / m.block_size < length bs =
        div-lt cached m.block_size (length bs) (omega (arith, full, back)) in
      let (b, at) = get_elem?_of_lt bs (cached / m.block_size) within in
      (
        t,
        cached,
        b,
        n,
        e,
        back,
        ap (λ l. get_elem? l (cached / m.block_size)) a.prefix
            ∙ get_elem?-append_lt bs a.fresh (cached / m.block_size) within
            ∙ at,
        reusable-indexed digest (blocks_needed m.block_size tokens) ids m v b
            (count-get_elem? bs (cached / m.block_size) at),
      )
