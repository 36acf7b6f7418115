-- ===== src/Tests/Engines.antt =====
-- engine.py and the round trip through the host on concrete inputs.
use paged_serve.Prelude.{ℕ, ◌+◌, ◌*◌, ◌≡◌, refl, arith, true, false, List, [], ◌∷◌, none, some, ok}
use paged_serve.Block.{blocks_needed}
use paged_serve.PrefixCache
use paged_serve.BlockManager.Checks
use paged_serve.BlockManager.Checks.{check_invariants}
use paged_serve.Swap
use paged_serve.Swap.{SwapSpace, KvCache}
use paged_serve.Swap.Restore.{Restored, swap_in-swap_out}
use paged_serve.Tests.Data.{holding}

abbrev cells : KvCache
cells layer kv block = 10 * layer + 100 * kv + block

abbrev blank : KvCache
blank layer kv block = 0

swap_in-swap_out_example :
    (cs : List ℕ) × (s1 : SwapSpace) × (gpu' : KvCache) × (s2 : SwapSpace) × (Swap.swap_out cells
        (4 ∷ 6 ∷ [])
        (Swap.init 2 3)
      ≡ (ok cs, s1))
    × (Swap.swap_in blank cs (1 ∷ 0 ∷ []) s1 ≡ (ok gpu', s2))
    × Restored cells gpu' (4 ∷ 6 ∷ []) (1 ∷ 0 ∷ []) (Swap.init 2 3) s2
unfolding Swap.can_swap_out Swap.num_free_blocks Swap.init
swap_in-swap_out_example =
    swap_in-swap_out cells blank (4 ∷ 6 ∷ []) (1 ∷ 0 ∷ []) (Swap.init 2 3) refl (λ x. ground arith)
      (λ x. ground arith) refl

-- The run-time test accepts a valid allocator, and refuses one whose free list has a held block.
accepts : check_invariants (holding (2 ∷ 3 ∷ []) 4) (some ((7, 4) ∷ [])) ≡ true
unfolding check_invariants Checks.set_of Checks.minus Checks.disjoint Checks.references
    Checks.tables_disjoint Checks.counts_exact Checks.sum_refs Checks.sizes_exact blocks_needed
    PrefixCache.init PrefixCache.reclaimable_blocks
accepts = refl

refuses : check_invariants (holding (1 ∷ 3 ∷ []) 4) none ≡ false
unfolding check_invariants Checks.set_of Checks.minus Checks.disjoint Checks.references
    Checks.tables_disjoint Checks.counts_exact Checks.sum_refs Checks.sizes_exact blocks_needed
    PrefixCache.init PrefixCache.reclaimable_blocks
refuses = refl
